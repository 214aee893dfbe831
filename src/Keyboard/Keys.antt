-- ===== src/Keyboard/Keys.antt =====
-- What a scan code means, and that the interrupt handler does just that.
use os_curriculum_design.Prelude.{
  ℕ, ◌≡◌, ◌≢◌, refl, sym, ap, subst, ◌∙◌, arith, Bool, true, false, ◌||◌, Option, none, some, List,
  if◌then◌else◌, leb, ◌==◌, ==_iff, Bool-cases, inl, inr,
}
use os_curriculum_design.Keyboard.{
  Keyboard, normal_map, shift_map, key_up, key_down, buffer_push, extended_key, irq_handler,
}
use os_curriculum_design.Keyboard.Queue.{IsValid, waiting, contents, offer, buffer_push-contents}

-- The character of a table, where 0 stands for no key.
abbrev char : ℕ → Option ℕ
char c = if c == 0 then none else some c

-- The key that a scan code stands for, behind a prefix or not, with or without Shift.
unfoldable pub translate : Bool → Bool → ℕ → Option ℕ
translate shift true code =
    if code == 0x48 then some key_up else if code == 0x50 then some key_down else none
translate shift false code =
    if leb 0x80 code then none else char (if shift then shift_map code else normal_map code)

unfoldable pub next_shift : Bool → Bool → ℕ → Bool
next_shift shift true code = shift
next_shift shift false code =
    if code == 0x2A || code == 0x36
    then true
    else if code == 0xAA || code == 0xB6
    then false
    else shift

unfoldable pub offer_key : List ℕ → Option ℕ → List ℕ
offer_key queue none = queue
offer_key queue (some key) = offer queue key

-- The Shift keys have no character.
no_shift_char :
    (shift : Bool) (code : ℕ)
    → ((code == 0x2A || code == 0x36) ≡ true)
    → translate shift false code ≡ none
unfolding translate normal_map shift_map
no_shift_char true code e = elim (Bool-cases (code == 0x2A)) [
  | inl a ↦ rw ((==_iff code 0x2A).0 a) refl
  | inr a ↦ rw ((==_iff code 0x36).0 (ground (arith, a, e))) refl
]
no_shift_char false code e = elim (Bool-cases (code == 0x2A)) [
  | inl a ↦ rw ((==_iff code 0x2A).0 a) refl
  | inr a ↦ rw ((==_iff code 0x36).0 (ground (arith, a, e))) refl
]

-- One run of the handler from `k` to `k'`.
pub record Handles (k : Keyboard) (code : ℕ) (k' : Keyboard) : Type 0 where
  pub valid : IsValid k'
  pub prefixed : k'.extended_prefix ≡ (code == 0xE0)
  pub shift : k'.shift_pressed ≡ next_shift k.shift_pressed k.extended_prefix code
  pub keys : contents k' ≡ offer_key (contents k) (translate k.shift_pressed k.extended_prefix code)

-- Handlers that only set the flags.
only_flags :
    (k : Keyboard) (code : ℕ) (s p : Bool)
    → IsValid k
    → p ≡ (code == 0xE0)
    → s ≡ next_shift k.shift_pressed k.extended_prefix code
    → translate k.shift_pressed k.extended_prefix code ≡ none
    → Handles k code (record k { shift_pressed = s; extended_prefix = p })
unfolding contents waiting offer_key
only_flags k code s p v e f no_key = record {
  valid = record { size = v.size; head = v.head; tail = v.tail };
  prefixed = e;
  shift = f;
  keys = rw no_key refl;
}

-- Handlers that put a key into the ring.
pushes :
    (k : Keyboard) (code key : ℕ)
    → IsValid k
    → code ≢ 0xE0
    → next_shift k.shift_pressed k.extended_prefix code ≡ k.shift_pressed
    → translate k.shift_pressed k.extended_prefix code ≡ some key
    → Handles k code (buffer_push (record k { extended_prefix = false }) key)
unfolding contents waiting offer_key buffer_push
pushes k code key v e f is_key =
    let k₀ = record k { extended_prefix = false } in
    let (valid, keys) =
      buffer_push-contents k₀ key (record { size = v.size; head = v.head; tail = v.tail }) in
    record {
      valid = valid;
      prefixed = ground (arith, e);
      shift = ground (arith, f);
      keys = keys ∙ rw is_key refl;
    }

next_shift-prefixed :
    (k : Keyboard) (code : ℕ)
    → k.extended_prefix ≡ true
    → next_shift k.shift_pressed k.extended_prefix code ≡ k.shift_pressed
unfolding next_shift
next_shift-prefixed k code e = simp e refl

translate-prefixed :
    (k : Keyboard) (code : ℕ)
    → k.extended_prefix ≡ true
    → translate k.shift_pressed k.extended_prefix code
      ≡ (if code == 0x48 then some key_up else if code == 0x50 then some key_down else none)
unfolding translate
translate-prefixed k code e = simp e refl

extended_key-Handles :
    (k : Keyboard) (code : ℕ)
    → IsValid k
    → k.extended_prefix ≡ true
    → code ≢ 0xE0
    → Handles k code (extended_key (record k { extended_prefix = false }) code)
unfolding extended_key
extended_key-Handles k code v ext ne = elim (Bool-cases (leb 0x80 code)) [
  | inl big ↦ rw big (nothing (ground (arith, key, big)))
  | inr small ↦ elim (Bool-cases (code == 0x48)) [
    | inl up ↦ rw (small, up) (pushes k code key_up v ne shift (ground (arith, key, up)))
    | inr not_up ↦ elim (Bool-cases (code == 0x50)) [
      | inl down ↦
          rw (small, not_up, down)
            (pushes k code key_down v ne shift (ground (arith, key, not_up, down)))
      | inr neither ↦ rw (small, not_up, neither) (nothing (ground (arith, key, not_up, neither)))
    ]
  ]
]
  where
    shift : next_shift k.shift_pressed k.extended_prefix code ≡ k.shift_pressed
    shift = next_shift-prefixed k code ext

    key :
        translate k.shift_pressed k.extended_prefix code
        ≡ (if code == 0x48 then some key_up else if code == 0x50 then some key_down else none)
    key = translate-prefixed k code ext

    nothing :
        translate k.shift_pressed k.extended_prefix code ≡ none
        → Handles k code (record k { extended_prefix = false })
    nothing e = only_flags k code k.shift_pressed false v (ground (arith, ne)) (sym shift) e

-- A code that stands for no key in any state of Shift.
unshifted :
    (k : Keyboard) (code : ℕ)
    → code ≢ 0xE0
    → next_shift k.shift_pressed false code ≡ k.shift_pressed
    → translate k.shift_pressed false code ≡ none
    → IsValid k
    → Handles (record k { extended_prefix = false }) code (record k { extended_prefix = false })
unshifted k code ne shift no_key v =
    only_flags (record k { extended_prefix = false }) code k.shift_pressed false
      (record { size = v.size; head = v.head; tail = v.tail }) (ground (arith, ne)) (sym shift)
      no_key

next_shift-other :
    (shift : Bool) (code : ℕ)
    → ((code == 0x2A || code == 0x36) ≡ false)
    → ((code == 0xAA || code == 0xB6) ≡ false)
    → next_shift shift false code ≡ shift
unfolding next_shift
next_shift-other shift code e f = rw (e, f) refl

-- The handler on a code that comes without a prefix.
plain-Handles :
    (k : Keyboard) (code : ℕ)
    → IsValid k
    → code ≢ 0xE0
    → let k₀ = record k { extended_prefix = false } in Handles k₀ code (irq_handler k₀ code)
unfolding irq_handler translate next_shift
plain-Handles k code v ne = elim (Bool-cases (code == 0x2A || code == 0x36)) [
  | inl pressed ↦
      simp (other, pressed)
        (only_flags k₀ code true false v₀ (sym other) (rw pressed refl)
          (no_shift_char k.shift_pressed code pressed))
  | inr e ↦ elim (Bool-cases (code == 0xAA || code == 0xB6)) [
    | inl released ↦
        simp (other, e, released)
          (only_flags k₀ code false false v₀ (sym other) (rw (e, released) refl)
            (ground (arith, released)))
    | inr f ↦ elim (Bool-cases (leb 0x80 code)) [
      | inl big ↦
          simp (other, e, f, big)
            (unshifted k code ne (next_shift-other k.shift_pressed code e f) (rw big refl) v)
      | inr small ↦ elim (Bool-cases (c == 0)) [
        | inl no_char ↦
            simp (other, e, f, small, no_char)
              (unshifted k code ne (next_shift-other k.shift_pressed code e f)
                (rw (small, no_char) refl) v)
        | inr is_char ↦
            simp (other, e, f, small, is_char)
              (pushes k₀ code c v₀ ne (next_shift-other k.shift_pressed code e f)
                (rw (small, is_char) refl))
      ]
    ]
  ]
]
  where
    k₀ : Keyboard
    k₀ = record k { extended_prefix = false }

    v₀ : IsValid k₀
    v₀ = record { size = v.size; head = v.head; tail = v.tail }

    other : (code == 0xE0) ≡ false
    other = ground (arith, ne)

    c : ℕ
    c = if k.shift_pressed then shift_map code else normal_map code

-- The prefix itself is no key and leaves Shift alone.
prefix_keeps :
    (k : Keyboard) (code : ℕ)
    → (code == 0xE0) ≡ true
    → (k.shift_pressed ≡ next_shift k.shift_pressed k.extended_prefix code)
      × (translate k.shift_pressed k.extended_prefix code ≡ none)
unfolding next_shift translate
prefix_keeps k code e = elim (Bool-cases k.extended_prefix) [
  | inl p ↦ rw (p, next_shift, translate, (==_iff code 0xE0).0 e) (refl, refl)
  | inr p ↦ rw (p, next_shift, translate, (==_iff code 0xE0).0 e) (refl, refl)
]

-- The interrupt handler on every scan code, for a well-formed ring, which stays so: the prefix
-- flag is set exactly by 0xE0, Shift follows its press and release codes, and the key that the
-- code stands for, if any, is offered to the queue.
pub irq_handler_lem : (k : Keyboard) (code : ℕ) → IsValid k → Handles k code (irq_handler k code)
unfolding irq_handler
irq_handler_lem k code v = elim (Bool-cases (code == 0xE0)) [
  | inl prefix ↦ rw prefix (
      only_flags k code k.shift_pressed true v (sym prefix) (prefix_keeps k code prefix).0
        (prefix_keeps k code prefix).1)
  | inr other ↦ elim (Bool-cases k.extended_prefix) [
    | inl ext ↦
        simp (other, ext)
          (extended_key-Handles k code v ext (λ e. cc (other, (==_iff code 0xE0).1 e)))
    | inr plain ↦
        subst (λ (m : Keyboard). Handles m code (irq_handler m code))
          (ap (λ (p : Bool). record k { extended_prefix = p }) (sym plain))
          (plain-Handles k code v (λ e. cc (other, (==_iff code 0xE0).1 e)))
  ]
]
