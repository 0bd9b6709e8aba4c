-- ===== src/Redis/Memory/Refine.antt =====
-- lib/redis/client.ts: the plain keys of the in-memory store, against a specification in which nothing is
-- ever cleaned up and a key is gone once the clock is past its expiry.
use tapioca_money.Base.{
  ℕ, zero, suc, leb, ◌+◌, ◌*◌, ◌≤◌, String, ◌==◌, ◌≡◌, refl, Bool, true, false, Option, some, none,
  List, [], ◌∷◌, if◌then◌else◌, arith, eq_iff,
}
use tapioca_money.Base.Dict
use tapioca_money.Base.Dict.{get-set, get-delete}
use tapioca_money.Redis.Action.{Result, ok, err}
use tapioca_money.Redis.Memory
use tapioca_money.Redis.Memory.{Memory, Item, is_expired, is_live, expiry_of, empty_memory}

pub data Op : Type 0 where
  get_key : String → Op
  set_key : String → String → Option ℕ → Op
  set_key_nx : String → String → ℕ → Op
  del_key : String → Op

pub data Output : Type 0 where
  text : Option String → Output
  flag : Bool → Output
  done : Output

-- a value of the specification, with the last millisecond at which it is there, if it has one
pub record Entry : Type 0 where
  pub value : String
  pub until : Option ℕ

-- the store of the specification
abbrev pub Store : Type 0
Store = String → Option Entry

-- a positive time to live is in seconds; there is no end without one
abbrev pub until_of : ℕ → Option ℕ → Option ℕ
until_of now none = none
until_of now (some zero) = none
until_of now (some (suc n)) = some (now + 1000 + n * 1000)

-- the value that is there at `now`
abbrev pub seen : ℕ → Option Entry → Option String
seen now none = none
seen now (some entry) = elim entry.until [
  | none ↦ some entry.value
  | some t ↦ if leb now t then some entry.value else none
]

abbrev pub store_at : String → Option Entry → Store → Store
store_at key entry f k = if key == k then entry else f k

abbrev pub spec_step : ℕ → Op → Store → Output × Store
spec_step now (get_key key) f = (text (seen now (f key)), f)
spec_step now (set_key key value ttl) f =
    (done, store_at key (some (record { value = value; until = until_of now ttl })) f)
spec_step now (set_key_nx key value ttl) f = elim (seen now (f key)) [
  | some _ ↦ (flag false, f)
  | none ↦
      (flag true, store_at key (some (record { value = value; until = some (now + ttl * 1000) })) f)
]
spec_step now (del_key key) f = (done, store_at key none f)

-- a result of the store; none of the four operations throws
abbrev pub output : {A : Type 0} → (A → Output) → Result A × Memory → Output × Memory
output f (ok a, m) = (f a, m)
output f (err _, m) = (done, m)

abbrev pub memory_step : ℕ → Op → Memory → Output × Memory
memory_step now (get_key key) m = output (λ v. text v) (Memory.get now key m)
memory_step now (set_key key value ttl) m = output (λ _. done) (Memory.set now key value ttl m)
memory_step now (set_key_nx key value ttl) m =
    output (λ b. flag b) (Memory.set_nx now key value ttl m)
memory_step now (del_key key) m = output (λ _. done) (Memory.del now key m)

-- the outputs of operations, each some time after the one before
unfoldable pub run_memory : ℕ → List (ℕ × Op) → Memory → List Output
run_memory clock [] m = []
run_memory clock ((wait, op) ∷ ops) m =
    let (o, m') = memory_step (clock + wait) op m in o ∷ run_memory (clock + wait) ops m'

unfoldable pub run_spec : ℕ → List (ℕ × Op) → Store → List Output
run_spec clock [] f = []
run_spec clock ((wait, op) ∷ ops) f =
    let (o, f') = spec_step (clock + wait) op f in o ∷ run_spec (clock + wait) ops f'

-- the value that the store gives at `now`
abbrev visible : ℕ → Option Item → Option String
visible now none = none
visible now (some item) = if is_expired now item then none else some item.value

-- from `t` on, both have the same values
abbrev Agrees : ℕ → Memory → Store → Type 0
Agrees t m f = (k : String) (now : ℕ) → t ≤ now → visible now (Dict.get k m.texts) ≡ seen now (f k)

seen-later : (t now : ℕ) (o : Option Entry) → t ≤ now → seen t o ≡ none → seen now o ≡ none
seen-later t now none h e = refl
seen-later t now (some entry) h e = ground arith

-- what `set` keeps, at any later time
visible-set :
    (now later : ℕ) (value : String) (ttl : Option ℕ)
    → now ≤ later
    → visible later (some (record { value = value; expiry = expiry_of now ttl }))
      ≡ seen later (some (record { value = value; until = until_of now ttl }))
visible-set now later value none h = refl
visible-set now later value (some zero) h = ground arith
visible-set now later value (some (suc n)) h = ground arith

step-Agrees :
    (t now : ℕ) (op : Op) (m : Memory) (f : Store)
    → t ≤ now
    → Agrees t m f
    → ((memory_step now op m).0 ≡ (spec_step now op f).0)
      × Agrees now (memory_step now op m).1 (spec_step now op f).1
unfolding Memory.get Memory.set Memory.set_nx Memory.del
step-Agrees t now (get_key key) m f h agrees = (
  ground (arith, agrees key now h),
  λ k later le. ground (
    arith,
    agrees key now h,
    agrees k later (omega arith),
    get-delete key k m.texts,
    eq_iff key k,
    seen-later now later (f key) le,
  ),
)
step-Agrees t now (set_key key value ttl) m f h agrees = (
  refl,
  λ k later le. ground (
    arith,
    agrees k later (omega arith),
    eq_iff key k,
    get-set key k (record { value = value; expiry = expiry_of now ttl }) m.texts,
    visible-set now later value ttl (omega arith),
  ),
)
step-Agrees t now (set_key_nx key value ttl) m f h agrees = (
  ground (arith, agrees key now h),
  λ k later le. ground (
    arith,
    agrees key now h,
    agrees k later (omega arith),
    eq_iff key k,
    get-set key k (record { value = value; expiry = some (now + ttl * 1000) }) m.texts,
  ),
)
step-Agrees t now (del_key key) m f h agrees = (
  refl,
  λ k later le.
      ground (arith, agrees k later (omega arith), eq_iff key k, get-delete key k m.texts),
)

run-Agrees :
    (ops : List (ℕ × Op)) (t : ℕ) (m : Memory) (f : Store)
    → Agrees t m f
    → run_memory t ops m ≡ run_spec t ops f
unfolding run_memory run_spec
run-Agrees [] t m f agrees = refl
run-Agrees ((wait, op) ∷ ops) t m f agrees =
    let (same, agrees') = step-Agrees t (t + wait) op m f (omega arith) agrees in
    let m' = (memory_step (t + wait) op m).1 in
    let f' = (spec_step (t + wait) op f).1 in
    rw (same, run-Agrees ops (t + wait) m' f' agrees') refl

-- From the empty store, every sequence of get, set, setNX and del at times that do not go back has the
-- outputs of the specification, in which a key that has expired is as if it had never been set.
pub run_memory-run_spec :
    (clock : ℕ) (ops : List (ℕ × Op))
    → run_memory clock ops empty_memory ≡ run_spec clock ops (λ _. none)
unfolding Dict.get
run_memory-run_spec clock ops = run-Agrees ops clock empty_memory (λ _. none) (λ k now h. refl)
