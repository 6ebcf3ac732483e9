-- ===== src/Dsi/Header.antt =====
-- internal/dsi/header.go: packet headers and their sixteen bytes on the wire.
use goafp.Base.{ℕ, ◌-◌, ◌^◌, ◌<◌, ◌≡◌, refl, ◌++◌, length, take, drop}
use goafp.Base.Bytes.{Bytes, be, from_be, from_be-be}

-- The DSI command codes.
abbrev pub cmd_close_session : ℕ
cmd_close_session = 1

abbrev pub cmd_command : ℕ
cmd_command = 2

abbrev pub cmd_get_status : ℕ
cmd_get_status = 3

abbrev pub cmd_open_session : ℕ
cmd_open_session = 4

abbrev pub cmd_tickle : ℕ
cmd_tickle = 5

abbrev pub cmd_write : ℕ
cmd_write = 6

abbrev pub cmd_attention : ℕ
cmd_attention = 8

abbrev pub flag_request : ℕ
flag_request = 0

abbrev pub flag_reply : ℕ
flag_reply = 1

abbrev pub header_size : ℕ
header_size = 16

pub record Header : Type 0 where
  pub flags : ℕ
  pub command : ℕ
  pub request_id : ℕ
  pub err_code : ℕ
  pub len : ℕ
  pub reserved : ℕ

-- The ranges of the Go fields: uint8, uint8, uint16 and three uint32.
pub record IsValid (h : Header) : Type 0 where
  pub flags_lt : h.flags < 2 ^ 8
  pub command_lt : h.command < 2 ^ 8
  pub request_id_lt : h.request_id < 2 ^ 16
  pub err_code_lt : h.err_code < 2 ^ 32
  pub len_lt : h.len < 2 ^ 32
  pub reserved_lt : h.reserved < 2 ^ 32

unfoldable pub encode : Header → Bytes
encode h =
    be 1 h.flags
    ++ be 1 h.command
    ++ be 2 h.request_id
    ++ be 4 h.err_code
    ++ be 4 h.len
    ++ be 4 h.reserved

-- `b[i:j]` of the sixteen bytes.
abbrev field : Bytes → ℕ → ℕ → ℕ
field b i j = from_be (take (j - i) (drop i b))

unfoldable pub decode_header : Bytes → Header
decode_header b = record {
  flags = field b 0 1;
  command = field b 1 2;
  request_id = field b 2 4;
  err_code = field b 4 8;
  len = field b 8 12;
  reserved = field b 12 16;
}

pub length-encode : (h : Header) → length (encode h) ≡ header_size
unfolding encode
length-encode h = refl

-- Every header of the fields' ranges is decoded as it was encoded.
pub decode_header-encode : (h : Header) → IsValid h → decode_header (encode h) ≡ h
unfolding encode decode_header
decode_header-encode h v = λ i. record {
  flags = from_be-be 1 h.flags v.flags_lt i;
  command = from_be-be 1 h.command v.command_lt i;
  request_id = from_be-be 2 h.request_id v.request_id_lt i;
  err_code = from_be-be 4 h.err_code v.err_code_lt i;
  len = from_be-be 4 h.len v.len_lt i;
  reserved = from_be-be 4 h.reserved v.reserved_lt i;
}
