-- ===== src/Util/Participant.antt =====
-- Participant ids of util/participant.go. A string is the list of its bytes. `strings.TrimSpace`
-- is modelled on ASCII, where it cuts the six white-space characters.
use meowcaller.Base.{
  ℕ, zero, suc, ◌+◌, Bool, false, not, ◌&&◌, ◌||◌, Option, none, some, [], ◌∷◌, ◌++◌, leb, ◌==◌,
  if◌then◌else◌, take, drop, bytes_equal, Bytes,
}

-- `strings.Cut(s, sep)` for a one-byte separator: the part before it, or all of `s`.
unfoldable pub before : ℕ → Bytes → Bytes
before sep [] = []
before sep (b ∷ bs) = if b == sep then [] else b ∷ before sep bs

abbrev pub is_space : ℕ → Bool
is_space b = b == b' ' || (leb 9 b && leb b 13)

unfoldable pub trim_left : Bytes → Bytes
trim_left [] = []
trim_left (b ∷ bs) = if is_space b then trim_left bs else b ∷ bs

unfoldable pub trim_right : Bytes → Bytes
trim_right [] = []
trim_right (b ∷ bs) = elim (trim_right bs) [
  | [] ↦ if is_space b then [] else b ∷ []
  | c ∷ cs ↦ b ∷ c ∷ cs
]

-- `strings.TrimSpace`
abbrev pub trim_space : Bytes → Bytes
trim_space s = trim_left (trim_right s)

-- `strings.LastIndexByte`; `none` is -1.
unfoldable pub last_index_byte : Bytes → ℕ → Option ℕ
last_index_byte [] c = none
last_index_byte (b ∷ bs) c = elim (last_index_byte bs c) [
  | some i ↦ some (suc i)
  | none ↦ if b == c then some 0 else none
]

-- `strings.Contains` for a one-byte text.
unfoldable pub contains : Bytes → ℕ → Bool
contains [] c = false
contains (b ∷ bs) c = b == c || contains bs c

abbrev pub lid : Bytes
lid = b'l' ∷ b'i' ∷ b'd' ∷ []

abbrev pub bare_jid : Bytes → Bytes
bare_jid jid = trim_space (before b'/' jid)

abbrev with_device : Bytes → Bytes
with_device user = user ++ (b':' ∷ b'0' ∷ b'@' ∷ lid)

-- The part of `FormatParticipantID` behind the search for `@`.
qualify : Bytes → Option ℕ → Bytes
qualify bare none = bare
qualify bare (some zero) = bare
qualify bare (some (suc i)) =
    let user = take (suc i) bare in
    let domain = drop (suc i + 1) bare in
    if bytes_equal domain lid && not (contains user b':') then with_device user else bare

-- `FormatParticipantID`
unfoldable pub format_participant_id : Bytes → Bytes
unfolding before trim_left trim_right last_index_byte contains qualify
format_participant_id jid = let bare = bare_jid jid in qualify bare (last_index_byte bare b'@')
