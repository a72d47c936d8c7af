-- ===== src/Keyboard/Tests.antt =====
-- Runs of the keyboard driver, and the theorems about it at concrete bytes.
use mjos.Base.{ℕ, ◌+◌, ◌≡◌, refl, List, [], ◌∷◌, some, arith}
use mjos.Keyboard.Keys.{key_value, key_a, key_up}
use mjos.Keyboard.{
  normal, pause_1, pause_2, digest_scan_code, int_handler, send_keycode, find_key, then_digest,
  sent_before,
}
use mjos.Keyboard.Words.{Stream, word, end, down, extended_up, pause, int_handler-Stream}

-- A goes down, the up arrow is released, the pause key is pressed
abbrev typed : List ℕ
typed = 0x1e ∷ 0xe0 ∷ 0xc8 ∷ 0xe1 ∷ 0x1d ∷ 0x45 ∷ 0xe1 ∷ 0x9d ∷ 0xc5 ∷ []

abbrev sent : List ℕ
sent = 11 ∷ (97 + 0x80000000) ∷ 102 ∷ []

typed_is_sent : int_handler typed normal ≡ some (normal, sent)
unfolding int_handler then_digest sent_before digest_scan_code send_keycode find_key key_value
typed_is_sent = refl

typed-Stream : Stream typed sent
unfolding key_value find_key
typed-Stream =
    word (down 0x1e key_a refl) (word (extended_up 0x48 key_up (omega arith) refl) (word pause end))

int_handler-Stream_example : int_handler typed normal ≡ some (normal, sent)
int_handler-Stream_example = int_handler-Stream typed sent typed-Stream

pause_goes_on : digest_scan_code pause_1 0x1d ≡ some (pause_2, [])
unfolding digest_scan_code
pause_goes_on = refl
