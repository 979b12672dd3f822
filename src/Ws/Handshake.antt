-- ===== src/Ws/Handshake.antt =====
-- crates/sutegi-ws/src/protocol.rs: the key that answers a handshake.
use sutegi.Base.{◌++◌, Bytes, codes}
use sutegi.Crypto.{base64_encode}
use sutegi.Crypto.Legacy.{sha1}
use sutegi.Http.{trim}

unfoldable pub accept_key : Bytes → Bytes
accept_key client_key =
    base64_encode (sha1 (trim client_key ++ codes "258EAFA5-E914-47DA-95CA-C5AB0DC85B11"))
