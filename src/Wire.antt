-- ===== src/Wire.antt =====
-- hub/images/tunnel-server/proto/tunnel.proto and its copy on the spoke's side, as the generated
-- Rust types. Bytes are lists of numbers; a `oneof` that is absent is `none`.
use openspoke.Common.{ℕ, Bool, Option, List}
use openspoke.Common.Dict.{Dict}
use openspoke.Common.Int.{ℤ}
use openspoke.Common.Text.{Text}

abbrev pub Bytes : Type 0
Bytes = List ℕ

pub record HandshakeChallenge : Type 0 where
  pub nonce : Bytes
  pub issued_at : ℕ

pub record HandshakeResponse : Type 0 where
  pub spoke_id : Text
  pub signature : Bytes
  pub tunnel_client_ver : Text

pub record OpenStream : Type 0 where
  pub protocol : Text
  pub target : Text

pub record CloseStream : Type 0 where
  pub half : Bool
  pub reason : Text

pub record HttpRequest : Type 0 where
  pub method : Text
  pub path : Text
  pub headers : Dict Text Text
  pub body : Bytes

pub record HttpResponse : Type 0 where
  pub status : ℤ
  pub headers : Dict Text Text
  pub body : Bytes
  pub error : Text

pub data ServerKind : Type 0 where
  challenge : HandshakeChallenge → ServerKind
  open_stream : OpenStream → ServerKind
  payload : Bytes → ServerKind
  close_stream : CloseStream → ServerKind
  ping : ℤ → ServerKind
  http_response : HttpResponse → ServerKind

pub record ServerFrame : Type 0 where
  pub stream_id : ℕ
  pub kind : Option ServerKind

pub data ClientKind : Type 0 where
  handshake : HandshakeResponse → ClientKind
  payload : Bytes → ClientKind
  close_stream : CloseStream → ClientKind
  pong : ℤ → ClientKind
  http_request : HttpRequest → ClientKind

pub record ClientFrame : Type 0 where
  pub stream_id : ℕ
  pub kind : Option ClientKind
