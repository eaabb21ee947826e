-- ===== src/Protocol/Stream.antt =====
-- `DefaultProtocolStream` of protocol.go over an `io.ReadWriteCloser`, which is a parameter.
use cat_tag.Common.{ℕ, ◌≡◌, String, Option, none, some, if◌then◌else◌, ltb, length, arith}
use cat_tag.Errors.{GoError, Result, err, new_bluetooth_error, disconnected, invalid_parameter}
use cat_tag.Protocol.Bytes.{Bytes}

-- The methods of `io.ReadWriteCloser`: `read n` fills a slice of n bytes as far as it can, `write`
-- returns a count, and either may fail.
pub record ReadWriteCloser : Type 1 where
  pub Conn : Type 0
  pub read : Conn → ℕ → Conn × Result Bytes
  pub write : Conn → Bytes → Conn × Result ℕ
  pub close : Conn → Conn × Option GoError

module _ (io : ReadWriteCloser) where
  open io use {Conn}

  -- `conn` is none once the stream is closed.
  pub record Stream : Type 0 where
    pub protocol : String
    pub mtu : ℕ
    pub conn : Option Conn

  unfoldable pub new_stream : String → ℕ → Conn → Stream
  new_stream protocol mtu conn = record { protocol = protocol; mtu = mtu; conn = some conn }

  unfoldable pub read : Stream → ℕ → Stream × Result Bytes
  read s n = elim s.conn [
    | none ↦ (s, err (new_bluetooth_error disconnected))
    | some c ↦ let (c', r) = io.read c n in (record s { conn = some c' }, r)
  ]

  unfoldable pub write : Stream → Bytes → Stream × Result ℕ
  write s bytes = elim s.conn [
    | none ↦ (s, err (new_bluetooth_error disconnected))
    | some c ↦
        if ltb s.mtu (length bytes)
        then (s, err (new_bluetooth_error invalid_parameter))
        else (let (c', r) = io.write c bytes in (record s { conn = some c' }, r))
  ]

  unfoldable pub close : Stream → Stream × Option GoError
  close s = elim s.conn [ none ↦ (s, none) | some c ↦ (record s { conn = none }, (io.close c).1) ]

  -- Once closed, a stream stays closed: a further close does nothing, and every read and write
  -- fails as disconnected and changes nothing.
  pub closed_stream :
      (s : Stream) (n : ℕ) (bytes : Bytes)
      → let t = (close s).0 in
        (close t ≡ (t, none))
        × (read t n ≡ (t, err (new_bluetooth_error disconnected)))
        × (write t bytes ≡ (t, err (new_bluetooth_error disconnected)))
  unfolding close read write
  closed_stream s n bytes = ground arith
