-- ===== src/Keyboard/Words.antt =====
-- A stream of keys: what the keyboard sends for each key pressed or released, and that the driver
-- reads the stream back.
use mjos.Base.{
  ℕ, ◌+◌, ◌<◌, ◌≡◌, refl, ap, ◌∙◌, ◌≢◌, inl, inr, List, [], ◌∷◌, ◌++◌, some, none, arith, get_elem?,
  ==_ne, Bool-cases, ltb, ltb→lt, true, false,
}
use mjos.Keyboard.Keys.{KeyCode, normal_lookup, extended_lookup, key_value, key_prtsc, key_pause}
use mjos.Keyboard.{
  normal, e0, Digest, digest_key, digest_extended, digest_scan_code, key_part, is_release,
  send_keycode, find_key, sent_before, then_digest, int_handler, release_bit,
}
use mjos.Keyboard.Decode.{normal-key, get_elem?-none}

-- The bytes that stand for one key going down or up, and the number that the driver is to send.
pub data Word : List ℕ → ℕ → Type 0 where
  down : (c : ℕ) (k : KeyCode) → get_elem? normal_lookup c ≡ some k → Word (c ∷ []) (key_value k)
  up :
      (c : ℕ) (k : KeyCode)
      → get_elem? normal_lookup c ≡ some k
      → Word ((128 + c) ∷ []) (key_value k + release_bit)
  extended_down :
      (c : ℕ) (k : KeyCode)
      → c < 128
      → find_key c extended_lookup ≡ some k
      → Word (0xe0 ∷ c ∷ []) (key_value k)
  extended_up :
      (c : ℕ) (k : KeyCode)
      → c < 128
      → find_key c extended_lookup ≡ some k
      → Word (0xe0 ∷ (128 + c) ∷ []) (key_value k + release_bit)
  prtsc_down : Word (0xe0 ∷ 0x2a ∷ 0xe0 ∷ 0x37 ∷ []) (key_value key_prtsc)
  prtsc_up : Word (0xe0 ∷ 0xb7 ∷ 0xe0 ∷ 0xaa ∷ []) (key_value key_prtsc + release_bit)
  pause : Word (0xe1 ∷ 0x1d ∷ 0x45 ∷ 0xe1 ∷ 0x9d ∷ 0xc5 ∷ []) (key_value key_pause)

-- words one behind the other
pub data Stream : List ℕ → List ℕ → Type 0 where
  end : Stream [] []
  word :
      {w bytes keys : List ℕ} {k : ℕ}
      → Word w k
      → Stream bytes keys
      → Stream (w ++ bytes) (k ∷ keys)

sent_before-nil : (d : Digest) → sent_before [] d ≡ d
unfolding sent_before
sent_before-nil none = refl
sent_before-nil (some (s, out)) = refl

-- a code in `normal_lookup` is no prefix, also with the release bit
in_table : (c : ℕ) (k : KeyCode) → get_elem? normal_lookup c ≡ some k → c < 92
in_table c k e = elim (Bool-cases (ltb c 92)) [
  | inl h ↦ ltb→lt c 92 h
  | inr h ↦ let no_key = (get_elem?-none normal_lookup c).1 (ground (arith, h)) in cc (no_key, e)
]

-- a byte of a key in the normal state
send-down :
    (c : ℕ) (k : KeyCode)
    → get_elem? normal_lookup c ≡ some k
    → digest_scan_code normal c ≡ some (normal, key_value k ∷ [])
unfolding digest_key send_keycode
send-down c k e =
    let small = in_table c k e in
    let part : key_part c ≡ c = omega arith in
    let pressed : is_release c ≡ false = ground arith in
    normal-key c (omega arith) (omega arith)
    ∙ ap (λ i. digest_key (get_elem? normal_lookup i) (is_release c)) part
    ∙ ap (λ r. digest_key (get_elem? normal_lookup c) r) pressed
    ∙ ap (λ f. digest_key f false) e

send-up :
    (c : ℕ) (k : KeyCode)
    → get_elem? normal_lookup c ≡ some k
    → digest_scan_code normal (128 + c) ≡ some (normal, (key_value k + release_bit) ∷ [])
unfolding digest_key send_keycode
send-up c k e =
    let small = in_table c k e in
    let part : key_part (128 + c) ≡ c = omega arith in
    let released : is_release (128 + c) ≡ true = ground arith in
    normal-key (128 + c) (omega arith) (omega arith)
    ∙ ap (λ i. digest_key (get_elem? normal_lookup i) (is_release (128 + c))) part
    ∙ ap (λ r. digest_key (get_elem? normal_lookup c) r) released
    ∙ ap (λ f. digest_key f true) e

-- a byte behind the prefix e0
extended-key :
    (c : ℕ)
    → c ≢ 0x2a
    → c ≢ 0xb7
    → digest_scan_code e0 c ≡ digest_extended (find_key (key_part c) extended_lookup) (is_release c)
unfolding digest_scan_code
extended-key c n m = rw (==_ne c 0x2a n, ==_ne c 0xb7 m) refl

-- the codes of the print-screen sequences are no extended keys
not_prtsc :
    (c b : ℕ) (k : KeyCode)
    → find_key b extended_lookup ≡ none
    → find_key c extended_lookup ≡ some k
    → c ≢ b
not_prtsc c b k n e p =
    let same : find_key c extended_lookup ≡ none = ap (λ i. find_key i extended_lookup) p ∙ n in
    cc (same, e)

send-extended_down :
    (c : ℕ) (k : KeyCode)
    → c < 128
    → find_key c extended_lookup ≡ some k
    → digest_scan_code e0 c ≡ some (normal, key_value k ∷ [])
unfolding digest_extended send_keycode find_key
send-extended_down c k h e =
    let part : key_part c ≡ c = omega arith in
    let pressed : is_release c ≡ false = ground arith in
    extended-key c (not_prtsc c 0x2a k refl e) (omega arith)
    ∙ ap (λ i. digest_extended (find_key i extended_lookup) (is_release c)) part
    ∙ ap (λ r. digest_extended (find_key c extended_lookup) r) pressed
    ∙ ap (λ f. digest_extended f false) e

send-extended_up :
    (c : ℕ) (k : KeyCode)
    → c < 128
    → find_key c extended_lookup ≡ some k
    → digest_scan_code e0 (128 + c) ≡ some (normal, (key_value k + release_bit) ∷ [])
unfolding digest_extended send_keycode find_key
send-extended_up c k h e =
    let part : key_part (128 + c) ≡ c = omega arith in
    let released : is_release (128 + c) ≡ true = ground arith in
    let other = not_prtsc c 0x37 k refl e in
    extended-key (128 + c) (omega arith) (omega arith)
    ∙ ap (λ i. digest_extended (find_key i extended_lookup) (is_release (128 + c))) part
    ∙ ap (λ r. digest_extended (find_key c extended_lookup) r) released
    ∙ ap (λ f. digest_extended f true) e

-- One word sends its key and leaves the rest of the bytes.
int_handler-Word :
    (w : List ℕ) (k : ℕ) (rest : List ℕ)
    → Word w k
    → int_handler (w ++ rest) normal ≡ sent_before (k ∷ []) (int_handler rest normal)
unfolding int_handler then_digest digest_scan_code send_keycode
int_handler-Word w k rest (down c key e) = ap (then_digest (int_handler rest)) (send-down c key e)
int_handler-Word w k rest (up c key e) = ap (then_digest (int_handler rest)) (send-up c key e)
int_handler-Word w k rest (extended_down c key h e) =
    sent_before-nil (then_digest (int_handler rest) (digest_scan_code e0 c))
    ∙ ap (then_digest (int_handler rest)) (send-extended_down c key h e)
int_handler-Word w k rest (extended_up c key h e) =
    sent_before-nil (then_digest (int_handler rest) (digest_scan_code e0 (128 + c)))
    ∙ ap (then_digest (int_handler rest)) (send-extended_up c key h e)
int_handler-Word w k rest prtsc_down = sent_before-nil _ ∙ sent_before-nil _ ∙ sent_before-nil _
int_handler-Word w k rest prtsc_up = sent_before-nil _ ∙ sent_before-nil _ ∙ sent_before-nil _
int_handler-Word w k rest pause =
    sent_before-nil _
    ∙ sent_before-nil _
    ∙ sent_before-nil _
    ∙ sent_before-nil _
    ∙ sent_before-nil _

-- From the normal state the driver sends the keys of a stream in their order, reads nothing behind
-- its table, and is in the normal state again.
pub int_handler-Stream :
    (bytes keys : List ℕ) → Stream bytes keys → int_handler bytes normal ≡ some (normal, keys)
unfolding int_handler sent_before
int_handler-Stream bytes keys end = refl
int_handler-Stream bytes keys (word {w} {bytes = b} {keys = ks} {k} x rest) =
    int_handler-Word w k b x ∙ ap (sent_before (k ∷ [])) (int_handler-Stream b ks rest)
