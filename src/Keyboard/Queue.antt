-- ===== src/Keyboard/Queue.antt =====
-- The ring is a queue of at most 127 keys.
use os_curriculum_design.Prelude.{
  ==_iff, ℕ, zero, suc, ◌+◌, ◌-◌, ◌%◌, ◌<◌, ◌≡◌, ◌≢◌, refl, ap, ◌∙◌, arith, true, false, Option,
  none, some, List, [], ◌∷◌, ◌++◌, if◌then◌else◌, ltb, ◌==◌, get_or, set, length, get_or-set_self,
  get_or-set_ne, length-set, Bool-cases, inl, inr,
}
use os_curriculum_design.Keyboard.{Keyboard, buffer_size, buffer_push, read_key}

-- `n` slots of the ring from `pos` on, going around.
unfoldable pub window : List ℕ → ℕ → ℕ → List ℕ
window buffer pos zero = []
window buffer pos (suc n) = get_or buffer (pos % buffer_size) 0 ∷ window buffer (pos + 1) n

-- How many keys wait.
unfoldable pub waiting : Keyboard → ℕ
waiting k = (k.key_head + buffer_size - k.key_tail) % buffer_size

-- The keys that wait, the oldest first.
unfoldable pub contents : Keyboard → List ℕ
contents k = window k.key_buffer k.key_tail (waiting k)

pub record IsValid (k : Keyboard) : Type 0 where
  pub size : length k.key_buffer ≡ buffer_size
  pub head : k.key_head < buffer_size
  pub tail : k.key_tail < buffer_size

length-window : (b : List ℕ) (p n : ℕ) → length (window b p n) ≡ n
unfolding window
length-window b p zero = refl
length-window b p (suc n) = omega (arith, length-window b (p + 1) n)

-- A window that starts a whole ring later is the same.
window-mod : (b : List ℕ) (p q n : ℕ) → p % 128 ≡ q % 128 → window b p n ≡ window b q n
unfolding window
window-mod b p q zero e = refl
window-mod b p q (suc n) e = rw (e, window-mod b (p + 1) (q + 1) n (omega (arith, e)))

window-suc :
    (b : List ℕ) (p n : ℕ) → window b p (suc n) ≡ window b p n ++ (get_or b ((p + n) % 128) 0 ∷ [])
unfolding window
window-suc b p zero = ap (λ (i : ℕ). get_or b (i % 128) 0 ∷ []) (omega arith)
window-suc b p (suc n) = ap (◌∷◌ (get_or b (p % 128) 0)) (
    window-suc b (p + 1) n
    ∙ ap (λ (i : ℕ). window b (p + 1) n ++ (get_or b (i % 128) 0 ∷ [])) (omega arith))

-- Writing a slot outside the window does not show in it.
window-set :
    (b : List ℕ) (p n h key : ℕ)
    → ((i : ℕ) → i < n → h ≢ (p + i) % 128)
    → window (set b h key) p n ≡ window b p n
unfolding window
window-set b p zero h key out = refl
window-set b p (suc n) h key out = rw (
  get_or-set_ne b {i = h} {j = p % 128} key 0 (λ e. out 0 (omega arith) (omega (arith, e))),
  window-set b (p + 1) n h key (λ i lt e. out (i + 1) (omega arith) (omega (arith, e))),
)

-- What the ring promises: a queue of at most 127 keys, which drops the key when it is full.
unfoldable pub offer : List ℕ → ℕ → List ℕ
offer queue key = if ltb (length queue) 127 then queue ++ (key ∷ []) else queue

unfoldable pub poll : List ℕ → List ℕ × Option ℕ
poll [] = ([], none)
poll (key ∷ queue) = (queue, some key)

length-contents : (k : Keyboard) → length (contents k) ≡ waiting k
unfolding contents
length-contents k = length-window k.key_buffer k.key_tail (waiting k)

buffer_push-full :
    (k : Keyboard) (key : ℕ)
    → ((k.key_head + 1) % buffer_size == k.key_tail) ≡ true
    → buffer_push k key ≡ k
unfolding buffer_push
buffer_push-full k key e = rw (e, buffer_push)

buffer_push-room :
    (k : Keyboard) (key : ℕ)
    → ((k.key_head + 1) % buffer_size == k.key_tail) ≡ false
    → buffer_push k key ≡ record k {
      key_buffer = set k.key_buffer k.key_head key;
      key_head = (k.key_head + 1) % buffer_size;
    }
unfolding buffer_push
buffer_push-room k key e = rw (e, buffer_push)

read_key-none : (k : Keyboard) → (k.key_head == k.key_tail) ≡ true → read_key k ≡ (k, none)
unfolding read_key
read_key-none k e = rw (e, read_key)

read_key-some :
    (k : Keyboard)
    → (k.key_head == k.key_tail) ≡ false
    → read_key k ≡ (
      record k { key_tail = (k.key_tail + 1) % buffer_size },
      some (get_or k.key_buffer k.key_tail 0),
    )
unfolding read_key
read_key-some k e = rw (e, read_key)

waiting-full :
    (k : Keyboard)
    → ((k.key_head + 1) % buffer_size == k.key_tail) ≡ true
    → IsValid k
    → waiting k ≡ 127
unfolding waiting
waiting-full k e v = omega (arith, (==_iff ((k.key_head + 1) % 128) k.key_tail).0 e, v.head, v.tail)

waiting-room :
    (k : Keyboard)
    → ((k.key_head + 1) % buffer_size == k.key_tail) ≡ false
    → IsValid k
    → waiting k < 127
unfolding waiting
waiting-room k e v = ground (arith, e, v.head, v.tail)

push-contents :
    (k : Keyboard) (key : ℕ)
    → IsValid k
    → ((k.key_head + 1) % buffer_size == k.key_tail) ≡ false
    → contents (record k {
      key_buffer = set k.key_buffer k.key_head key;
      key_head = (k.key_head + 1) % buffer_size;
    })
      ≡ contents k ++ (key ∷ [])
unfolding contents waiting
push-contents k key v room =
    let n = waiting k in
    let short = waiting-room k room v in
    let b = set k.key_buffer k.key_head key in
    let more : ((k.key_head + 1) % 128 + 128 - k.key_tail) % 128 ≡ suc n =
      omega (arith, v.head, v.tail, short) in
    let last : (k.key_tail + n) % 128 ≡ k.key_head = omega (arith, v.head, v.tail) in
    ap (window b k.key_tail) more
    ∙ window-suc b k.key_tail n
    ∙ rw (
      last,
      get_or-set_self k.key_buffer k.key_head key 0 (omega (arith, v.size, v.head)),
      window-set k.key_buffer k.key_tail n k.key_head key (λ i lt e. omega (arith, last, e, short)),
    )

-- Putting a key into the ring is offering it to the queue.
pub buffer_push-contents :
    (k : Keyboard) (key : ℕ)
    → IsValid k
    → IsValid (buffer_push k key) × (contents (buffer_push k key) ≡ offer (contents k) key)
unfolding offer
buffer_push-contents k key v = elim (Bool-cases ((k.key_head + 1) % buffer_size == k.key_tail)) [
  | inl full ↦
      rw (buffer_push-full k key full) (v, ground (arith, length-contents k, waiting-full k full v))
  | inr room ↦ rw (buffer_push-room k key room) (
    record {
      size = length-set k.key_buffer k.key_head key ∙ v.size;
      head = omega arith;
      tail = v.tail;
    },
    rw (length-contents k) (push-contents k key v room ∙ ground (arith, waiting-room k room v)),
  )
]

waiting-none : (k : Keyboard) → (k.key_head == k.key_tail) ≡ true → IsValid k → waiting k ≡ 0
unfolding waiting
waiting-none k e v = omega (arith, (==_iff k.key_head k.key_tail).0 e, v.head, v.tail)

-- A ring with a key holds the one at the tail, and after it what is left once that is read.
read-contents :
    (k : Keyboard)
    → (k.key_head == k.key_tail) ≡ false
    → IsValid k
    → contents k
      ≡ get_or k.key_buffer k.key_tail 0
        ∷ contents (record k { key_tail = (k.key_tail + 1) % buffer_size })
unfolding contents waiting window
read-contents k e v =
    let n = (k.key_head + 128 - (k.key_tail + 1) % 128) % 128 in
    let more : (k.key_head + 128 - k.key_tail) % 128 ≡ suc n = ground (arith, e, v.head, v.tail) in
    let at : k.key_tail % 128 ≡ k.key_tail = omega (arith, v.tail) in
    rw (more, window, at)
      (ap (◌∷◌ (get_or k.key_buffer k.key_tail 0))
        (window-mod k.key_buffer (k.key_tail + 1) ((k.key_tail + 1) % 128) n (omega arith)))

-- Reading a key from a well-formed ring polls the queue that the ring stands for: the oldest key
-- comes out, or none when it is empty, and the ring stays well-formed.
pub read_key-contents :
    (k : Keyboard)
    → IsValid k
    → IsValid (read_key k).0 × ((contents (read_key k).0, (read_key k).1) ≡ poll (contents k))
unfolding poll contents window
read_key-contents k v = elim (Bool-cases (k.key_head == k.key_tail)) [
  | inl same ↦ rw (read_key-none k same) (v, rw (waiting-none k same v))
  | inr more ↦
      rw (read_key-some k more)
        (record { size = v.size; head = v.head; tail = omega arith }, rw (read-contents k more v))
]
