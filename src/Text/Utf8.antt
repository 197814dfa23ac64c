-- ===== src/Text/Utf8.antt =====
-- `bytes.decode("utf-8")` of Python, which raises on bytes that are not UTF-8.
use xen_syscall_analysis.Base.{
  ℕ, ◌+◌, ◌-◌, ◌*◌, ◌<◌, ◌≡◌, refl, ap, Bool, ◌&&◌, ◌||◌, Option, some, none, [], ◌∷◌, leb, ltb,
  ◌==◌, if◌then◌else◌, All, arith,
}
use xen_syscall_analysis.Text.{Text}

-- How many bytes of the character are still to come, its bits so far, and the range of the next
-- byte.
pub record Pending : Type 0 where
  pub left : ℕ
  pub value : ℕ
  pub low : ℕ
  pub high : ℕ

abbrev pub at_character : Pending
at_character = record { left = 0; value = 0; low = 0; high = 0 }

abbrev pub within : (low high c : ℕ) → Bool
within low high c = leb low c && leb c high

abbrev pub begin : (left value low high : ℕ) → Option (Option ℕ × Pending)
begin left value low high =
    some (none, record { left = left; value = value; low = low; high = high })

-- The first byte of a character.
unfoldable pub lead : (c : ℕ) → Option (Option ℕ × Pending)
lead c =
    if ltb c 0x80
    then some (some c, at_character)
    else if within 0xc2 0xdf c
    then begin 1 (c - 0xc0) 0x80 0xbf
    else if c == 0xe0
    then begin 2 0 0xa0 0xbf
    else if within 0xe1 0xec c || within 0xee 0xef c
    then begin 2 (c - 0xe0) 0x80 0xbf
    else if c == 0xed
    then begin 2 13 0x80 0x9f
    else if c == 0xf0
    then begin 3 0 0x90 0xbf
    else if within 0xf1 0xf3 c
    then begin 3 (c - 0xf0) 0x80 0xbf
    else if c == 0xf4
    then begin 3 4 0x80 0x8f
    else none

-- After one more byte of the character.
abbrev pub continue_char : Pending → (value : ℕ) → Option (Option ℕ × Pending)
continue_char p value =
    if p.left == 1 then some (some value, at_character) else begin (p.left - 1) value 0x80 0xbf

unfoldable pub next_byte : Pending → (c : ℕ) → Option (Option ℕ × Pending)
next_byte p c =
    if p.left == 0
    then lead c
    else if within p.low p.high c
    then continue_char p (p.value * 64 + (c - 0x80))
    else none

abbrev pub cons_char : ℕ → Option Text → Option Text
cons_char c none = none
cons_char c (some t) = some (c ∷ t)

abbrev pub then_read : Option (Option ℕ × Pending) → (Pending → Option Text) → Option Text
then_read none f = none
then_read (some (none, p)) f = f p
then_read (some (some c, p)) f = cons_char c (f p)

unfoldable pub decode_from : Text → Pending → Option Text
decode_from [] p = if p.left == 0 then some [] else none
decode_from (c ∷ t) p = then_read (next_byte p c) (decode_from t)

-- The characters of the bytes, if these are UTF-8.
unfoldable pub decode : Text → Option Text
decode t = decode_from t at_character

next_byte-ascii : (c : ℕ) → c < 128 → next_byte at_character c ≡ some (some c, at_character)
unfolding next_byte lead
next_byte-ascii c k = ground arith

-- ASCII bytes are their own characters.
pub decode-ascii : (t : Text) → All (λ c. c < 128) t → decode t ≡ some t
unfolding decode decode_from
decode-ascii [] h = refl
decode-ascii (c ∷ t) h = rw (next_byte-ascii c h.0) (ap (cons_char c) (decode-ascii t h.1))

test_decode : decode (0xc3 ∷ 0xa9 ∷ b'x' ∷ []) ≡ some (0xe9 ∷ b'x' ∷ [])
unfolding decode decode_from next_byte lead
test_decode = refl

test_decode_bad : decode (b'x' ∷ 0xff ∷ []) ≡ none
unfolding decode decode_from next_byte lead
test_decode_bad = refl
