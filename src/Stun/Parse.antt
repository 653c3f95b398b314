-- ===== src/Stun/Parse.antt =====
-- The parsers of stun/stun.go. A result that comes with `ok` false is `none`.
use meowcaller.Base.{
  ℕ, zero, suc, ◌+◌, ◌*◌, ◌/◌, ◌%◌, min, Bool, false, not, ◌&&◌, ◌||◌, Option, none, some, List, [],
  ◌∷◌, ltb, leb, ◌==◌, if◌then◌else◌, length, take, drop, bytes_equal, Bytes, u16, byte_at, slice,
  read_be16,
}
use meowcaller.Stun.{
  pad4, attr_error_code, msg_binding_success, msg_allocate_success, msg_allocate_error,
  msg_whatsapp_pong,
}

-- `IsStunPacket`; `data[0]&0xc0` is zero where the byte is below 64.
unfoldable pub is_stun_packet : Bytes → Bool
is_stun_packet xs = leb 2 (length xs) && byte_at xs 0 / 64 == 0

-- `StunMessageType`
unfoldable pub stun_message_type : Bytes → Option ℕ
stun_message_type xs =
    if ltb (length xs) 2 then none else some (byte_at xs 0 % 64 * 256 + byte_at xs 1)

-- `StunTransactionID`
unfoldable pub stun_transaction_id : Bytes → Option Bytes
stun_transaction_id xs = if ltb (length xs) 20 then none else some (slice 8 20 xs)

abbrev has_type : Option ℕ → ℕ → Bool
has_type none t = false
has_type (some m) t = m == t

-- `IsAllocateOrBindingSuccess`
unfoldable pub is_allocate_or_binding_success : Bytes → Bool
is_allocate_or_binding_success xs =
    (is_stun_packet xs && leb 20 (length xs))
    && (has_type (stun_message_type xs) msg_allocate_success
        || has_type (stun_message_type xs) msg_binding_success)

-- `IsAllocateError`
unfoldable pub is_allocate_error : Bytes → Bool
is_allocate_error xs = is_stun_packet xs && has_type (stun_message_type xs) msg_allocate_error

abbrev same_transaction : Option Bytes → Bytes → Bool
same_transaction none id = false
same_transaction (some tx) id = bytes_equal tx id

-- `IsWhatsappPong`; a nil or empty transaction id matches any.
unfoldable pub is_whatsapp_pong : Bytes → Bytes → Bool
is_whatsapp_pong xs transaction_id =
    (is_stun_packet xs && has_type (stun_message_type xs) msg_whatsapp_pong)
    && (length transaction_id == 0 || same_transaction (stun_transaction_id xs) transaction_id)

pub record StunAttribute : Type 0 where
  pub attr_type : ℕ
  pub value : Bytes

-- The loop of `ParseStunAttributes`, at what is left behind `off`. Each round takes four bytes at
-- least, so the size is enough fuel.
unfoldable pub stun_attributes : ℕ → Bytes → List StunAttribute
stun_attributes zero rest = []
stun_attributes (suc fuel) rest =
    let n = read_be16 rest 2 in
    let body = drop 4 rest in
    let more = stun_attributes fuel (drop (n + pad4 n) body) in
    if ltb (length rest) 4
    then []
    else if ltb (length body) n
    then []
    else record { attr_type = read_be16 rest 0; value = take n body } ∷ more

-- `ParseStunAttributes`
unfoldable pub parse_stun_attributes : Bytes → List StunAttribute
parse_stun_attributes xs =
    if not (is_stun_packet xs) || ltb (length xs) 20
    then []
    else stun_attributes (length xs) (drop 20 xs)

-- The loop of `ParseStunErrorCode` from `off` on. `end` bounds the attribute's header, the data the
-- code itself.
unfoldable pub error_code_from : ℕ → Bytes → ℕ → ℕ → Option ℕ
error_code_from zero xs end off = none
error_code_from (suc fuel) xs end off =
    let n = read_be16 xs (off + 2) in
    let more = error_code_from fuel xs end (off + (4 + n + pad4 n)) in
    let code = u16 (byte_at xs (off + 6) * 100 + byte_at xs (off + 7)) in
    if ltb end (off + 4)
    then none
    else if read_be16 xs off == attr_error_code && leb 4 n && leb (off + 8) (length xs)
    then some code
    else more

-- `ParseStunErrorCode`
unfoldable pub parse_stun_error_code : Bytes → Option ℕ
parse_stun_error_code xs =
    let end = min (20 + read_be16 xs 2) (length xs) in
    if ltb (length xs) 20
    then none
    else if not (
        has_type (stun_message_type xs) msg_allocate_error
        || has_type (stun_message_type xs) 0x0111)
    then none
    else error_code_from (length xs) xs end 20
