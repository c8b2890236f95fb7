-- ===== src/Auth/Throttle/Buckets.antt =====
-- The `OrderedDict` of failure counts (backend/app/auth/throttle.py): a list with its oldest entry
-- first. `f"{kind}:{value}"` is the pair of its parts, since no kind holds a colon.
use mathlib.Core.List.{append_assoc}
use text.Mathlib.Text.{◌==◌ as str_eq}
use cabinet_numismatics.Prelude.{
  ℕ, ◌+◌, ◌≤◌, ◌<◌, String, ◌≡◌, refl, ◌∙◌, ◌↔◌, Bool, true, false, ◌&&◌, Option, none, some, List,
  [], ◌∷◌, ◌++◌, arith, eq_iff, ltb, ◌==◌, if◌then◌else◌, length, length-append, inl, inr,
  Bool-cases, Option-cases,
}

pub data Kind : Type 0 where
  user addr share oidc setup : Kind

pub record Key : Type 0 where
  pub kind : Kind
  pub value : String

-- `_Entry`
pub record Entry : Type 0 where
  pub failures : ℕ
  pub last : ℕ

abbrev pub kind_code : Kind → ℕ
kind_code user = 0
kind_code addr = 1
kind_code share = 2
kind_code oidc = 3
kind_code setup = 4

abbrev pub kind_eq : Kind → Kind → Bool
kind_eq a b = kind_code a == kind_code b

unfoldable pub key_eq : Key → Key → Bool
key_eq a b = kind_eq a.kind b.kind && str_eq a.value b.value

kind_eq_iff : (a b : Kind) → (kind_eq a b ≡ true) ↔ (a ≡ b)
kind_eq_iff a b = ground arith

pub key_eq_iff : (a b : Key) → (key_eq a b ≡ true) ↔ (a ≡ b)
unfolding key_eq
key_eq_iff a b = ground (arith, kind_eq_iff a.kind b.kind, eq_iff a.value b.value)

pub key_eq_refl : (a : Key) → key_eq a a ≡ true
key_eq_refl a = (key_eq_iff a a).1 refl

pub key_eq-false : (a b : Key) → ¬ (a ≡ b) → key_eq a b ≡ false
key_eq-false a b ne = elim (Bool-cases (key_eq a b)) [
  | inl same ↦ absurd (ne ((key_eq_iff a b).0 same))
  | inr other ↦ other
]

abbrev pub Buckets : Type 0
Buckets = List (Key × Entry)

-- `entries.get(key)`
unfoldable pub get : Key → Buckets → Option Entry
get k [] = none
get k ((j, e) ∷ m) = if key_eq j k then some e else get k m

-- `del entries[key]`, `entries.pop(key, None)`
unfoldable pub erase : Key → Buckets → Buckets
erase k [] = []
erase k ((j, e) ∷ m) = let rest = erase k m in if key_eq j k then rest else (j, e) ∷ rest

-- `entries[key] = entry` and `entries.move_to_end(key)`
unfoldable pub push : Key → Entry → Buckets → Buckets
push k e m = erase k m ++ (k, e) ∷ []

-- `while len(entries) > n: entries.popitem(last=False)`
unfoldable pub evict : ℕ → Buckets → Buckets
evict n [] = []
evict n (x ∷ m) = let rest = evict n m in if ltb n (length (x ∷ m)) then rest else x ∷ m

pub get-erase :
    (k j : Key) (m : Buckets) → get k (erase j m) ≡ (if key_eq j k then none else get k m)
unfolding get erase
get-erase k j [] = ground arith
get-erase k j ((i, e) ∷ m) =
    ground (arith, get-erase k j m, key_eq_iff i j, key_eq_iff i k, key_eq_iff j k)

get-append : (k : Key) (m n : Buckets) → get k m ≡ none → get k (m ++ n) ≡ get k n
unfolding get
get-append k [] n h = refl
get-append k ((i, e) ∷ m) n h = ground (arith, get-append k m n)

get-append_some : (k : Key) (e : Entry) (m n : Buckets) → get k m ≡ some e → get k (m ++ n) ≡ some e
unfolding get
get-append_some k e [] n h = ground arith
get-append_some k e ((i, d) ∷ m) n h = ground (arith, get-append_some k e m n)

-- What a write changes: its own key, and no other.
pub get-push_self : (k : Key) (e : Entry) (m : Buckets) → get k (push k e m) ≡ some e
unfolding push get
get-push_self k e m =
    ground (arith, get-append k (erase k m) ((k, e) ∷ []), get-erase k k m, key_eq_refl k)

length-erase : (k : Key) (m : Buckets) → length (erase k m) ≤ length m
unfolding erase
length-erase k [] = omega arith
length-erase k ((i, e) ∷ m) = ground (arith, length-erase k m)

pub length-push : (k : Key) (e : Entry) (m : Buckets) → length (push k e m) ≤ length m + 1
unfolding push
length-push k e m = omega (arith, length-append (erase k m) ((k, e) ∷ []), length-erase k m)

pub length-erase-le : (k : Key) (m : Buckets) → length (erase k m) ≤ length m
length-erase-le = length-erase

pub length-evict : (n : ℕ) (m : Buckets) → length (evict n m) ≤ n
unfolding evict
length-evict n [] = omega arith
length-evict n (x ∷ m) = ground (arith, length-evict n m)

-- Nothing is dropped from a map that is small enough.
pub evict-small : (n : ℕ) (m : Buckets) → length m ≤ n → evict n m ≡ m
unfolding evict
evict-small n [] h = refl
evict-small n (x ∷ m) h = ground arith

evict-last :
    (n : ℕ) (k : Key) (e : Entry) (m : Buckets)
    → 0 < n
    → get k m ≡ none
    → get k (evict n (m ++ (k, e) ∷ [])) ≡ some e
unfolding evict get
evict-last n k e [] h none_yet = ground (arith, key_eq_refl k)
evict-last n k e ((i, d) ∷ m) h none_yet = elim (Bool-cases (key_eq i k)) [
  | inl same ↦ ground arith
  | inr other ↦ ground (arith, evict-last n k e m h, get-append k m ((k, e) ∷ []), key_eq_refl k)
]

-- The newest entry survives the eviction.
pub get-evict-push :
    (n : ℕ) (k : Key) (e : Entry) (m : Buckets) → 0 < n → get k (evict n (push k e m)) ≡ some e
unfolding push
get-evict-push n k e m h =
    evict-last n k e (erase k m) h (ground (arith, get-erase k k m, key_eq_refl k))

-- What a write leaves alone: every other key.
pub get-push_ne :
    (k j : Key) (e : Entry) (m : Buckets) → key_eq j k ≡ false → get k (push j e m) ≡ get k m
unfolding push get
get-push_ne k j e m h = elim (Option-cases (get k (erase j m))) [
  | inl absent ↦ ground (arith, get-append k (erase j m) ((j, e) ∷ []), get-erase k j m)
  | inr (d, found) ↦
      ground (arith, get-append_some k d (erase j m) ((j, e) ∷ []) found, get-erase k j m)
]

erase-append : (k : Key) (m n : Buckets) → erase k (m ++ n) ≡ erase k m ++ erase k n
unfolding erase
erase-append k [] n = refl
erase-append k ((i, e) ∷ m) n = ground (arith, erase-append k m n)

erase-erase : (k : Key) (m : Buckets) → erase k (erase k m) ≡ erase k m
unfolding erase
erase-erase k [] = refl
erase-erase k ((i, e) ∷ m) = ground (arith, erase-erase k m)

-- A write replaces what was there.
pub push-erase : (k : Key) (e : Entry) (m : Buckets) → push k e (erase k m) ≡ push k e m
unfolding push
push-erase k e m = rw erase-erase

-- The newest entries survive the eviction together.
get-evict_recent :
    (n : ℕ) (k : Key) (m recent : Buckets)
    → length recent ≤ n
    → get k m ≡ none
    → get k (evict n (m ++ recent)) ≡ get k recent
unfolding evict get
get-evict_recent n k [] recent h absent = rw (evict-small n recent h)
get-evict_recent n k ((i, d) ∷ m) recent h absent = elim (Bool-cases (key_eq i k)) [
  | inl same ↦ ground arith
  | inr other ↦ ground (arith, get-evict_recent n k m recent h, get-append k m recent)
]

erase-other : (k j : Key) (e : Entry) → key_eq k j ≡ false → erase j ((k, e) ∷ []) ≡ (k, e) ∷ []
unfolding erase
erase-other k j e ne = ground arith

-- The last two keys written survive the eviction of the oldest.
pub get-evict-push_previous :
    (n : ℕ) (k j : Key) (e d : Entry) (m : Buckets)
    → 1 < n
    → key_eq k j ≡ false
    → get k (evict n (push j d (push k e m))) ≡ some e
unfolding push get
get-evict-push_previous n k j e d m h ne =
    let older = erase j (erase k m) in
    let absent : get k older ≡ none =
      ground (arith, get-erase k j (erase k m), get-erase k k m, key_eq_refl k) in
    rw (erase-append j (erase k m) ((k, e) ∷ [])) (
      rw (erase-other k j e ne) (
        rw (append_assoc older ((k, e) ∷ []) ((j, d) ∷ [])) (
          get-evict_recent n k older ((k, e) ∷ (j, d) ∷ []) (omega arith) absent
          ∙ ground (arith, key_eq_refl k))))
