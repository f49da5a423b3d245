-- ===== src/Proto/Service.antt =====
-- discord-jockey/src/proto/radio-jockey_pb.ts, `RadioService`: the client that the program calls.
-- The transport and the server behind it are not part of the program: a client is a record of its
-- methods, over whatever state `S` the world outside is in.
use radio_jockey.Base.{List, Text, Outcome}
use radio_jockey.Proto.Messages.{
  PingRequest, PingResponse, RequestNonceRequest, RequestNonceResponse, RespondNonceRequest,
  RespondNonceResponse, CreateSessionRequest, CreateSessionResponse, GetSessionRequest,
  GetSessionResponse, DeleteSessionAuthRequest, DeleteSessionAuthResponse, AddTrackRequest,
  AddTrackResponse, RemoveTrackRequest, RemoveTrackResponse, SkipTrackRequest, SkipTrackResponse,
  ListQueueRequest, ListQueueResponse, ListSessionsRequest, ListSessionsResponse,
  ListSessionArchivesRequest, ListSessionArchivesResponse, GetSessionArchiveRequest,
  GetSessionArchiveResponse, DeleteSessionArchiveRequest, DeleteSessionArchiveResponse,
}

-- The codes of a ConnectError.
pub data Code : Type 0 where
  canceled unknown invalid_argument deadline_exceeded not_found already_exists permission_denied :
      Code
  resource_exhausted failed_precondition aborted out_of_range unimplemented internal : Code
  unavailable data_loss unauthenticated : Code

-- What may be thrown: a ConnectError, with its code and raw message, or anything else.
pub data Failure : Type 0 where
  connect_error : Code → Text → Failure
  other_error : Text → Failure

-- A unary method: a request and call headers to a response or a failure, and the world after.
abbrev pub Rpc : Type 0 → Type 0 → Type 0 → Type 0
Rpc S I O = I → List (Text × Text) → S → Outcome Failure O × S

pub record RadioClient (S : Type 0) : Type 0 where
  pub ping : Rpc S PingRequest PingResponse
  pub request_nonce : Rpc S RequestNonceRequest RequestNonceResponse
  pub respond_nonce : Rpc S RespondNonceRequest RespondNonceResponse
  pub create_session : Rpc S CreateSessionRequest CreateSessionResponse
  pub get_session : Rpc S GetSessionRequest GetSessionResponse
  pub delete_session_auth : Rpc S DeleteSessionAuthRequest DeleteSessionAuthResponse
  pub add_track : Rpc S AddTrackRequest AddTrackResponse
  pub remove_track : Rpc S RemoveTrackRequest RemoveTrackResponse
  pub skip_track : Rpc S SkipTrackRequest SkipTrackResponse
  pub list_queue : Rpc S ListQueueRequest ListQueueResponse
  pub list_sessions : Rpc S ListSessionsRequest ListSessionsResponse
  pub list_session_archives : Rpc S ListSessionArchivesRequest ListSessionArchivesResponse
  pub get_session_archive : Rpc S GetSessionArchiveRequest GetSessionArchiveResponse
  pub delete_session_archive : Rpc S DeleteSessionArchiveRequest DeleteSessionArchiveResponse
