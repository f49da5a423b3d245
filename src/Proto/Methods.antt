-- ===== src/Proto/Methods.antt =====
-- discord-jockey/src/proto/radio-jockey_connect.ts and the service of radio-jockey_pb.ts: the table of
-- the methods, each with the type of its request and of its response. All of them are unary.
use radio_jockey.Base.{Text, text}
use radio_jockey.Proto.Messages.{
  PingRequest, PingResponse, RequestNonceRequest, RequestNonceResponse, RespondNonceRequest,
  RespondNonceResponse, CreateSessionRequest, CreateSessionResponse, GetSessionRequest,
  GetSessionResponse, DeleteSessionAuthRequest, DeleteSessionAuthResponse, AddTrackRequest,
  AddTrackResponse, RemoveTrackRequest, RemoveTrackResponse, SkipTrackRequest, SkipTrackResponse,
  ListQueueRequest, ListQueueResponse, ListSessionsRequest, ListSessionsResponse,
  ListSessionArchivesRequest, ListSessionArchivesResponse, GetSessionArchiveRequest,
  GetSessionArchiveResponse, DeleteSessionArchiveRequest, DeleteSessionArchiveResponse,
}
use radio_jockey.Proto.Service.{Rpc, RadioClient}

pub data Method : Type 0 where
  ping request_nonce respond_nonce create_session get_session delete_session_auth add_track : Method
  remove_track skip_track list_queue list_sessions list_session_archives : Method
  get_session_archive delete_session_archive : Method

-- The name in the path of a call.
unfoldable pub name_of : Method → Text
unfolding text
name_of ping = text "Ping"
name_of request_nonce = text "RequestNonce"
name_of respond_nonce = text "RespondNonce"
name_of create_session = text "CreateSession"
name_of get_session = text "GetSession"
name_of delete_session_auth = text "DeleteSessionAuth"
name_of add_track = text "AddTrack"
name_of remove_track = text "RemoveTrack"
name_of skip_track = text "SkipTrack"
name_of list_queue = text "ListQueue"
name_of list_sessions = text "ListSessions"
name_of list_session_archives = text "ListSessionArchives"
name_of get_session_archive = text "GetSessionArchive"
name_of delete_session_archive = text "DeleteSessionArchive"

abbrev pub Request : Method → Type 0
Request ping = PingRequest
Request request_nonce = RequestNonceRequest
Request respond_nonce = RespondNonceRequest
Request create_session = CreateSessionRequest
Request get_session = GetSessionRequest
Request delete_session_auth = DeleteSessionAuthRequest
Request add_track = AddTrackRequest
Request remove_track = RemoveTrackRequest
Request skip_track = SkipTrackRequest
Request list_queue = ListQueueRequest
Request list_sessions = ListSessionsRequest
Request list_session_archives = ListSessionArchivesRequest
Request get_session_archive = GetSessionArchiveRequest
Request delete_session_archive = DeleteSessionArchiveRequest

abbrev pub Response : Method → Type 0
Response ping = PingResponse
Response request_nonce = RequestNonceResponse
Response respond_nonce = RespondNonceResponse
Response create_session = CreateSessionResponse
Response get_session = GetSessionResponse
Response delete_session_auth = DeleteSessionAuthResponse
Response add_track = AddTrackResponse
Response remove_track = RemoveTrackResponse
Response skip_track = SkipTrackResponse
Response list_queue = ListQueueResponse
Response list_sessions = ListSessionsResponse
Response list_session_archives = ListSessionArchivesResponse
Response get_session_archive = GetSessionArchiveResponse
Response delete_session_archive = DeleteSessionArchiveResponse

-- The method of a client under its name.
abbrev pub method_of :
    {S : Type 0} → RadioClient S → (method : Method) → Rpc S (Request method) (Response method)
method_of client ping = client.ping
method_of client request_nonce = client.request_nonce
method_of client respond_nonce = client.respond_nonce
method_of client create_session = client.create_session
method_of client get_session = client.get_session
method_of client delete_session_auth = client.delete_session_auth
method_of client add_track = client.add_track
method_of client remove_track = client.remove_track
method_of client skip_track = client.skip_track
method_of client list_queue = client.list_queue
method_of client list_sessions = client.list_sessions
method_of client list_session_archives = client.list_session_archives
method_of client get_session_archive = client.get_session_archive
method_of client delete_session_archive = client.delete_session_archive
