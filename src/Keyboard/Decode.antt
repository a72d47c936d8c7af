-- ===== src/Keyboard/Decode.antt =====
-- One byte: where the driver reads behind its table, and how it leaves the multi-byte states.
use mjos.Base.{
  ℕ, zero, suc, ◌%◌, ◌<◌, ◌≤◌, ◌≡◌, refl, sym, ◌∙◌, ==_ne, ◌≢◌, ◌⊎◌, inl, inr, List, [], ◌∷◌,
  Option, some, none, arith, length, get_elem?, Bool,
}
use mjos.Keyboard.Keys.{KeyCode, normal_lookup, extended_lookup}
use mjos.Keyboard.{
  KbdState, normal, e0, prtsc_down_2, prtsc_down_3, prtsc_up_2, prtsc_up_3, pause_1, pause_2,
  pause_3, pause_4, pause_5, digest_key, digest_extended, digest_scan_code, key_part, is_release,
  find_key,
}

pub get_elem?-none :
    {A : Type 0} (xs : List A) (i : ℕ)
    → (get_elem? xs i ≡ none → length xs ≤ i) × (length xs ≤ i → get_elem? xs i ≡ none)
get_elem?-none [] i = ((λ e. omega arith), (λ h. refl))
get_elem?-none (x ∷ xs) zero = ((λ e. absurd (ground (arith, e))), (λ h. absurd (omega arith)))
get_elem?-none (x ∷ xs) (suc i) =
    let rest = get_elem?-none xs i in
    ((λ e. let more = rest.0 e in omega arith), (λ h. rest.1 (omega arith)))

digest_key-none :
    (found : Option KeyCode) (up : Bool)
    → (digest_key found up ≡ none → found ≡ none) × (found ≡ none → digest_key found up ≡ none)
unfolding digest_key
digest_key-none none up = ((λ e. refl), (λ e. refl))
digest_key-none (some k) up = ((λ e. absurd (ground (arith, e))), (λ e. absurd (ground (arith, e))))

digest_extended-some : (found : Option KeyCode) (up : Bool) → digest_extended found up ≢ none
unfolding digest_extended
digest_extended-some none up e = absurd (ground (arith, e))
digest_extended-some (some k) up e = absurd (ground (arith, e))

digest_extended-normal :
    (found : Option KeyCode) (up : Bool) (s : KbdState) (out : List ℕ)
    → digest_extended found up ≡ some (s, out)
    → s ≡ normal
unfolding digest_extended
digest_extended-normal none up s out e = ground (arith, e)
digest_extended-normal (some k) up s out e = ground (arith, e)

busy : (s : KbdState) (c : ℕ) → s ≢ normal → digest_scan_code s c ≢ none
unfolding digest_scan_code
busy normal c n e = n refl
busy e0 c n e =
    let found = find_key (key_part c) extended_lookup in
    ground (arith, e, digest_extended-some found (is_release c))
busy prtsc_down_2 c n e = ground (arith, e)
busy prtsc_down_3 c n e = ground (arith, e)
busy prtsc_up_2 c n e = ground (arith, e)
busy prtsc_up_3 c n e = ground (arith, e)
busy pause_1 c n e = ground (arith, e)
busy pause_2 c n e = ground (arith, e)
busy pause_3 c n e = ground (arith, e)
busy pause_4 c n e = ground (arith, e)
busy pause_5 c n e = ground (arith, e)

pub normal-key :
    (c : ℕ)
    → c ≢ 0xe0
    → c ≢ 0xe1
    → digest_scan_code normal c ≡ digest_key (get_elem? normal_lookup (key_part c)) (is_release c)
unfolding digest_scan_code
normal-key c n m = rw (==_ne c 0xe0 n, ==_ne c 0xe1 m) refl

prefix-some : (c : ℕ) → (c ≡ 0xe0) ⊎ (c ≡ 0xe1) → digest_scan_code normal c ≢ none
unfolding digest_scan_code
prefix-some c (inl p) e =
    let first : digest_scan_code normal 0xe0 ≡ none = rw p at e in ground (arith, first)
prefix-some c (inr p) e =
    let first : digest_scan_code normal 0xe1 ≡ none = rw p at e in ground (arith, first)

normal-none : (c : ℕ) → digest_scan_code normal c ≡ none → (c ≢ 0xe0) × (c ≢ 0xe1) × (92 ≤ c % 128)
normal-none c e =
    let n : c ≢ 0xe0 = λ p. prefix-some c (inl p) e in
    let m : c ≢ 0xe1 = λ p. prefix-some c (inr p) e in
    let found = get_elem? normal_lookup (key_part c) in
    (
      n,
      m,
      (get_elem?-none normal_lookup (key_part c)).0
          ((digest_key-none found (is_release c)).0 (sym (normal-key c n m) ∙ e)),
    )

none-normal : (c : ℕ) → c ≢ 0xe0 → c ≢ 0xe1 → 92 ≤ c % 128 → digest_scan_code normal c ≡ none
none-normal c n m h =
    let found = get_elem? normal_lookup (key_part c) in
    normal-key c n m
    ∙ (digest_key-none found (is_release c)).1 ((get_elem?-none normal_lookup (key_part c)).1 h)

is_normal : (s : KbdState) → (s ≡ normal) ⊎ (s ≢ normal)
is_normal normal = inl refl
is_normal s = inr (λ e. cc)

-- a byte that the normal state looks up at 92 or above
abbrev pub IsStray : KbdState → ℕ → Type 0
IsStray s c = (s ≡ normal) × (c ≢ 0xe0) × (c ≢ 0xe1) × (92 ≤ c % 128)

-- Outside the multi-byte sequences a byte that is no prefix is looked up without a test: the read is
-- outside `normal_lookup` exactly for the codes from 92 on, pressed or released.
pub digest_scan_code-outside :
    (s : KbdState) (c : ℕ)
    → (digest_scan_code s c ≡ none → IsStray s c) × (IsStray s c → digest_scan_code s c ≡ none)
digest_scan_code-outside s c = (
  (λ e. elim (is_normal s) [
    | inl p ↦ let r = normal-none c (rw p at e) in (p, r.0, r.1, r.2)
    | inr n ↦ absurd (busy s c n e)
  ]),
  (λ h. rw (h.0) (none-normal c h.1 h.2 h.3)),
)

-- how many bytes a state still waits for at most
abbrev pub rank : KbdState → ℕ
rank normal = 0
rank e0 = 3
rank prtsc_down_2 = 2
rank prtsc_down_3 = 1
rank prtsc_up_2 = 2
rank prtsc_up_3 = 1
rank pause_1 = 5
rank pause_2 = 4
rank pause_3 = 3
rank pause_4 = 2
rank pause_5 = 1

-- In a multi-byte state any byte leads back to the normal state or one step nearer to it.
pub digest_scan_code-rank :
    (s s' : KbdState) (c : ℕ) (out : List ℕ)
    → s ≢ normal
    → digest_scan_code s c ≡ some (s', out)
    → rank s' < rank s
unfolding digest_scan_code
digest_scan_code-rank normal s' c out n e = absurd (n refl)
digest_scan_code-rank e0 s' c out n e =
    let found = find_key (key_part c) extended_lookup in
    let up = is_release c in ground (arith, e, digest_extended-normal found up s' out)
digest_scan_code-rank prtsc_down_2 s' c out n e = ground (arith, e)
digest_scan_code-rank prtsc_down_3 s' c out n e = ground (arith, e)
digest_scan_code-rank prtsc_up_2 s' c out n e = ground (arith, e)
digest_scan_code-rank prtsc_up_3 s' c out n e = ground (arith, e)
digest_scan_code-rank pause_1 s' c out n e = ground (arith, e)
digest_scan_code-rank pause_2 s' c out n e = ground (arith, e)
digest_scan_code-rank pause_3 s' c out n e = ground (arith, e)
digest_scan_code-rank pause_4 s' c out n e = ground (arith, e)
digest_scan_code-rank pause_5 s' c out n e = ground (arith, e)
