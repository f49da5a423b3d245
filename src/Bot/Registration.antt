-- ===== src/Bot/Registration.antt =====
-- discord-jockey/src/discord.ts, `registerCommands`: the table of commands that Discord is given.
use radio_jockey.Base.{
  Bool, true, false, Option, none, some, List, [], ◌∷◌, ◌++◌, Text, text, text_eq, ◌≡◌, ok, arith,
  if◌then◌else◌, refl,
}
use mathlib.Core.List.{append_assoc}
use radio_jockey.Bot.Logger.{format}
use radio_jockey.Bot.Effects.{World, Env, M, ◌>>=◌, ◌>>◌, info, error}
use radio_jockey.Bot.Commands.{Interaction}
use radio_jockey.Bot.Play.{dispatch}

-- `ApplicationCommandOptionType`, as far as it is used.
pub data OptionType : Type 0 where
  string_option integer_option : OptionType

pub record CommandOption : Type 0 where
  pub name : Text
  pub description : Text
  pub option_type : OptionType
  pub required : Bool

pub record SlashCommand : Type 0 where
  pub name : Text
  pub description : Text
  pub options : List CommandOption

abbrev command : Text → Text → SlashCommand
command name description = record { name = name; description = description; options = [] }

abbrev pub commands : List SlashCommand
commands =
    command (text "ping") (text "Replies with Pong!")
    ∷ (record {
      name = text "play";
      description = text "Add a track to the queue and start playing.";
      options =
          (record {
            name = text "url";
            description = text "YouTube URL of the track to add";
            option_type = string_option;
            required = false;
          })
          ∷ [];
    })
    ∷ command (text "skip") (text "Skip the current track.")
    ∷ command (text "queue") (text "Show the current queue.")
    ∷ (record {
      name = text "remove";
      description = text "Remove a track from the queue by position.";
      options =
          (record {
            name = text "position";
            description = text "Position in the queue (1-based)";
            option_type = integer_option;
            required = true;
          })
          ∷ [];
    })
    ∷ command (text "stop") (text "Stop playback and leave the voice channel.")
    ∷ []

-- Whether a command of the name is in a table.
abbrev pub is_registered : Text → List SlashCommand → Bool
is_registered name [] = false
is_registered name (c ∷ cs) = if text_eq name c.name then true else is_registered name cs

-- `put` is `rest.put(Routes.applicationCommands(botId), { body })`: `none` is success, a text what
-- `${error}` prints of its failure.
module _ {S : Type 0} (put : Text → List SlashCommand → S → Option Text × S) where
  unfoldable put_commands : Text → M S (Option Text)
  put_commands bot_id w =
      let (r, s) = put bot_id commands w.external in (ok r, record w { external = s })

  abbrev reloaded : Option Text → M S (Unit {0})
  reloaded none = info (text "Successfully reloaded application (/) commands.") []
  reloaded (some e) = error e []

  unfoldable pub register_commands : Text → M S (Unit {0})
  unfolding put_commands
  register_commands bot_id = do
    info (text "Started refreshing application (/) commands.") []
    outcome ← put_commands bot_id
    reloaded outcome

  -- What the registration logs once Discord has answered.
  abbrev pub last_line : Option Text → Text
  last_line none = format (text "INFO") (text "Successfully reloaded application (/) commands.") []
  last_line (some e) = format (text "ERROR") e []

  reloaded_lem :
      (e : Option Text) (w : World S)
      → reloaded e w ≡ (ok tt, record w { log = w.log ++ last_line e ∷ [] })
  unfolding info error
  reloaded_lem none w = refl
  reloaded_lem (some e) w = refl

  -- The registration of the commands returns whatever Discord answers, logs its start and then
  -- either its success or the error, and leaves the sessions as they were.
  pub register_commands-ok :
      (bot_id : Text) (w : World S)
      → ((register_commands bot_id w).0 ≡ ok tt)
        × ((register_commands bot_id w).1.log
            ≡ w.log
              ++ format (text "INFO") (text "Started refreshing application (/) commands.") []
                ∷ last_line (put bot_id commands w.external).0
                ∷ [])
        × ((register_commands bot_id w).1.sessions ≡ w.sessions)
  unfolding register_commands info
  register_commands-ok bot_id w = rw reloaded_lem (refl, append_assoc w.log _ _, refl)

module _ {S : Type 0} (env : Env S) where
  -- A command whose name is not in the table that the bot registers is not run: the dispatcher
  -- returns, and the world is as it was.
  pub dispatch_unregistered :
      (name : Text) (i : Interaction) (w : World S)
      → is_registered name commands ≡ false
      → dispatch env name i w ≡ (ok none, w)
  unfolding dispatch
  dispatch_unregistered name i w h = ground arith
