-- ===== src/Web/Create.antt =====
-- web/src/routes/stations/create/+page.svelte: the form that creates a station.
pub mod Slugs
pub mod Submitting
use radio_jockey.Base.{
  Bool, true, false, not, List, [], ◌∷◌, ◌++◌, Text, text, if◌then◌else◌, is_nonempty, Outcome, ok,
  thrown,
}
use radio_jockey.Bot.Slug.{dash_runs, trim_dashes_start, trim_dashes_end}
use radio_jockey.Proto.Messages.{CreateSessionRequest, CreateSessionResponse}
use radio_jockey.Proto.Service.{Failure, connect_error, other_error, already_exists}
use radio_jockey.Web.Errors.{friendly_error}
use radio_jockey.Web.Machine.{Machine}

pub record Form : Type 0 where
  pub name : Text
  pub archive : Bool
  pub error : Text
  pub submitting : Bool

-- The call, and `goto`, which SvelteKit answers.
pub data Task : Type 0 where
  create_session : CreateSessionRequest → Task
  goto : (url : Text) → Task

abbrev pub Answer : Task → Type 0
Answer (create_session request) = Outcome Failure CreateSessionResponse
Answer (goto url) = Outcome Failure (Unit {0})

pub data Event : Type 0 where
  type_name : Text → Event
  check_archive : Bool → Event
  submit : Event

-- What the `catch` does, and the end of the handler.
abbrev pub taken_message : Failure → Text
taken_message (connect_error already_exists raw) = text "That name is taken, pick another."
taken_message (connect_error code raw) = (friendly_error (connect_error code raw)).0
taken_message (other_error message) = (friendly_error (other_error message)).0

unfoldable pub on_failure : Failure → Form → Form
on_failure err f = record f { error = taken_message err; submitting = false }

unfoldable pub resume : (t : Task) → Answer t → Form → Form × List Task
unfolding on_failure
resume (create_session request) (ok response) f =
    (f, goto (text "/stations/" ++ request.session_id) ∷ [])
resume (create_session request) (thrown err) f = (on_failure err f, [])
resume (goto url) (ok u) f = (record f { submitting = false }, [])
resume (goto url) (thrown err) f = (on_failure err f, [])

-- `lower` is `String.prototype.toLowerCase`.
module _ (lower : Text → Text) where
  unfoldable pub slugify : Text → Text
  slugify input = trim_dashes_end (trim_dashes_start (dash_runs false (lower input)))

  abbrev pub submit_as : Text → Form → Form × List Task
  submit_as session_id f =
      if is_nonempty session_id
      then (
        record f { error = []; submitting = true },
        create_session (record { session_id = session_id; archive = f.archive }) ∷ [],
      )
      else (record f { error = text "Please enter a station name." }, [])

  unfoldable pub handle_submit : Form → Form × List Task
  unfolding slugify
  handle_submit f = submit_as (slugify f.name) f

  abbrev pub act : Event → Form → Form × List Task
  act (type_name value) f = (record f { name = value }, [])
  act (check_archive value) f = (record f { archive = value }, [])
  act submit f = handle_submit f

abbrev pub enabled : Form → Event → Bool
enabled f e = not f.submitting

abbrev pub form : (lower : Text → Text) → Machine
form lower = record {
  State = Form;
  Event = Event;
  Task = Task;
  Answer = Answer;
  enabled = enabled;
  act = act lower;
  resume = resume;
}

abbrev pub fresh : Form
fresh = record { name = []; archive = false; error = []; submitting = false }
