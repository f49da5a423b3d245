-- ===== src/Proto/Messages.antt =====
-- discord-jockey/src/proto/radio-jockey_pb.ts: the messages of the service, as the generated types
-- give them to the program; web/src/lib/proto/radio-jockey_pb.ts is the same file. A field that may
-- be undefined is an Option. A message with no field has one value, `empty`.
use radio_jockey.Base.{Bool, Option, List, Text, ℤ}

pub data PingRequest : Type 0 where
  empty : PingRequest

pub record PingResponse : Type 0 where
  pub message : Text

pub record CreateSessionRequest : Type 0 where
  pub session_id : Text
  pub archive : Bool

pub record CreateSessionResponse : Type 0 where
  pub stream_url : Text

pub record GetSessionRequest : Type 0 where
  pub session_id : Text

pub record GetSessionResponse : Type 0 where
  pub stream_url : Text

pub data RequestNonceRequest : Type 0 where
  empty : RequestNonceRequest

pub record RequestNonceResponse : Type 0 where
  pub nonce : Text

pub record RespondNonceRequest : Type 0 where
  pub pass_key : Text

pub record RespondNonceResponse : Type 0 where
  pub auth_token : Text

pub record DeleteSessionAuthRequest : Type 0 where
  pub session_id : Text

pub data DeleteSessionAuthResponse : Type 0 where
  empty : DeleteSessionAuthResponse

pub record AddTrackRequest : Type 0 where
  pub session_id : Text
  pub track_url : Text

pub record Track : Type 0 where
  pub id : ℤ
  pub source : Text
  pub source_id : Text
  pub title : Text
  pub artist : Text
  pub duration : ℤ
  pub album_art_url : Text

pub record AddTrackResponse : Type 0 where
  pub track : Option Track

pub record RemoveTrackRequest : Type 0 where
  pub session_id : Text
  pub index : ℤ

pub data RemoveTrackResponse : Type 0 where
  empty : RemoveTrackResponse

pub record SkipTrackRequest : Type 0 where
  pub session_id : Text

pub data SkipTrackResponse : Type 0 where
  empty : SkipTrackResponse

pub record ListQueueRequest : Type 0 where
  pub session_id : Text

pub record ListQueueResponse : Type 0 where
  pub tracks : List Track

pub data ListSessionsRequest : Type 0 where
  empty : ListSessionsRequest

pub record SessionInfo : Type 0 where
  pub session_id : Text
  pub stream_url : Text

pub record ListSessionsResponse : Type 0 where
  pub sessions : List SessionInfo

pub record SessionArchiveInfo : Type 0 where
  pub id : ℤ
  pub session_id : Text
  pub created_at : ℤ

pub data ListSessionArchivesRequest : Type 0 where
  empty : ListSessionArchivesRequest

pub record ListSessionArchivesResponse : Type 0 where
  pub archives : List SessionArchiveInfo

pub record GetSessionArchiveRequest : Type 0 where
  pub id : ℤ

pub record GetSessionArchiveResponse : Type 0 where
  pub id : ℤ
  pub session_id : Text
  pub created_at : ℤ
  pub tracks : List Track

pub record DeleteSessionArchiveRequest : Type 0 where
  pub id : ℤ

pub data DeleteSessionArchiveResponse : Type 0 where
  empty : DeleteSessionArchiveResponse
