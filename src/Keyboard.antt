-- ===== src/Keyboard.antt =====
-- The keyboard driver of kernel/arch/x86_64/dev/ps2_keyboard.c: `digest_scan_code` takes the bytes of
-- the keyboard one by one and hands key codes to `kbd_send`. What is sent is collected in a list.
-- `none` is a read behind the end of `normal_lookup`. The ports, the interrupt's acknowledgement and
-- the set-up of its vector are hardware.
pub mod Keys
pub mod Decode
pub mod Words
mod Tests
use mjos.Base.{
  ℕ, zero, suc, ◌+◌, ◌/◌, ◌%◌, ◌^◌, ◌==◌, ltb, if◌then◌else◌, Bool, true, false, Option, none, some,
  List, [], ◌∷◌, ◌++◌, get_elem?,
}
use mjos.Keyboard.Keys.{KeyCode, key_value, normal_lookup, extended_lookup, key_prtsc, key_pause}

-- `STATE_NORMAL` to `STATE_PAUSE_5`
pub data KbdState : Type 0 where
  normal e0 prtsc_down_2 prtsc_down_3 prtsc_up_2 prtsc_up_3 : KbdState
  pause_1 pause_2 pause_3 pause_4 pause_5 : KbdState

-- `RELEASE`
abbrev pub release_bit : ℕ
release_bit = 0x80000000

-- What `send_keycode` hands to `kbd_send`; no key code has the bit.
unfoldable pub send_keycode : KeyCode → Bool → ℕ
send_keycode code release = if release then key_value code + release_bit else key_value code

-- `scancode & 0x7f` and `scancode & 0x80` of a byte
abbrev pub key_part : ℕ → ℕ
key_part scancode = scancode % 128

abbrev pub is_release : ℕ → Bool
is_release scancode = scancode / 128 % 2 == 1

-- the entry of a table of pairs
unfoldable pub find_key : ℕ → List (ℕ × KeyCode) → Option KeyCode
find_key code [] = none
find_key code ((c, key) ∷ table) =
    let rest = find_key code table in if code == c then some key else rest

-- What a byte does: the next state, and what is sent.
abbrev pub Digest : Type 0
Digest = Option (KbdState × List ℕ)

abbrev pub go : KbdState → Digest
go s = some (s, [])

-- `send_keycode(normal_lookup[...], ...)`
unfoldable pub digest_key : Option KeyCode → Bool → Digest
unfolding send_keycode
digest_key none release = none
digest_key (some key) release = some (normal, send_keycode key release ∷ [])

-- The inner `switch` of `STATE_E0`.
unfoldable pub digest_extended : Option KeyCode → Bool → Digest
unfolding send_keycode
digest_extended none release = go normal
digest_extended (some key) release = some (normal, send_keycode key release ∷ [])

-- the states that wait for one byte
abbrev pub expect : ℕ → KbdState → ℕ → Digest
expect byte next scancode = if scancode == byte then go next else go normal

-- the states that send a key at one byte
abbrev pub finish : ℕ → KeyCode → Bool → ℕ → Digest
finish byte key release scancode =
    if scancode == byte then some (normal, send_keycode key release ∷ []) else go normal

-- `digest_scan_code`
unfoldable pub digest_scan_code : KbdState → ℕ → Digest
unfolding digest_key digest_extended send_keycode find_key
digest_scan_code normal c =
    if c == 0xe0
    then go e0
    else if c == 0xe1
    then go pause_1
    else digest_key (get_elem? normal_lookup (key_part c)) (is_release c)
digest_scan_code e0 c =
    if c == 0x2a
    then go prtsc_down_2
    else if c == 0xb7
    then go prtsc_up_2
    else digest_extended (find_key (key_part c) extended_lookup) (is_release c)
digest_scan_code prtsc_down_2 c = expect 0xe0 prtsc_down_3 c
digest_scan_code prtsc_up_2 c = expect 0xe0 prtsc_up_3 c
digest_scan_code prtsc_down_3 c = finish 0x37 key_prtsc false c
digest_scan_code prtsc_up_3 c = finish 0xaa key_prtsc true c
digest_scan_code pause_1 c = expect 0x1d pause_2 c
digest_scan_code pause_2 c = expect 0x45 pause_3 c
digest_scan_code pause_3 c = expect 0xe1 pause_4 c
digest_scan_code pause_4 c = expect 0x9d pause_5 c
digest_scan_code pause_5 c = finish 0xc5 key_pause false c

-- Sending more behind what was sent before.
unfoldable pub sent_before : List ℕ → Digest → Digest
sent_before out none = none
sent_before out (some (s, more)) = some (s, out ++ more)

-- The loop of `ps2kbd_int_handler` over the bytes that wait, from a byte's result on.
unfoldable pub then_digest : (KbdState → Digest) → Digest → Digest
unfolding sent_before
then_digest rest none = none
then_digest rest (some (s, out)) = sent_before out (rest s)

-- The loop of `ps2kbd_int_handler`, for the bytes that the port gives.
unfoldable pub int_handler : List ℕ → KbdState → Digest
unfolding then_digest
int_handler [] s = some (s, [])
int_handler (c ∷ cs) s = then_digest (int_handler cs) (digest_scan_code s c)
