-- ===== src/Queue/Lists.antt =====
-- A Redis list as the queue that internals/pkg/redis.go makes of it.
use mzl_payment_app.Common.{
  String, Option, none, some, List, [], ◌∷◌, ◌++◌, ◌≡◌, refl, false, ◌==◌, arith, Bool, true,
}
use mzl_payment_app.External.Redis.{
  Keyspace, Entry, Value, rpush, push_first, push_more, blpop, pop_from, pop_value, pop_first,
  store,
}
use mzl_payment_app.External.Redis.Keys.{store_self, store_other}

-- What is in the list of a key, and whether the key may be used as one.
abbrev pub list_of : Value → List String
list_of (Value.text v) = []
list_of (Value.number n) = []
list_of (Value.list l) = l

abbrev pub is_list : Value → Bool
is_list (Value.text v) = false
is_list (Value.number n) = false
is_list (Value.list l) = true

abbrev pub items : Option Entry → List String
items none = []
items (some e) = list_of e.value

abbrev pub is_queue : Option Entry → Bool
is_queue none = true
is_queue (some e) = is_list e.value

-- The key holds the queue `l`.
abbrev pub Holds : Keyspace → String → List String → Type 0
Holds k key l = (is_queue (k key) ≡ true) × (items (k key) ≡ l)

-- From `k` to `k'` only this key has changed.
abbrev pub OnlyAt : String → Keyspace → Keyspace → Type 0
OnlyAt key k k' = (j : String) → (key == j) ≡ false → k' j ≡ k j

abbrev pub Pushed : String → List String → Keyspace → Option (Unit {0} × Keyspace) → Type 0
Pushed key l k out = (k' : Keyspace) × (out ≡ some (tt, k')) × Holds k' key l × OnlyAt key k k'

abbrev pub Popped : String → List String → Keyspace → Option (Option String × Keyspace) → Type 0
Popped key [] k out = out ≡ some (none, k)
Popped key (v ∷ l) k out =
    (k' : Keyspace) × (out ≡ some (some v, k')) × Holds k' key l × OnlyAt key k k'

module _ (key : String) (k : Keyspace) where
  Holds-store : (e : Option Entry) → is_queue e ≡ true → Holds (store key e k) key (items e)
  Holds-store e h = rw (store_self key e k) (h, refl)

  OnlyAt-store : (e : Option Entry) → OnlyAt key k (store key e k)
  OnlyAt-store e j h = store_other key j e k h

  push_more-Pushed :
      (v : String) (ttl : Option _) (w : Value)
      → is_list w ≡ true
      → Pushed key (list_of w ++ v ∷ []) k (push_more key v k ttl w)
  push_more-Pushed v ttl (Value.text w) h = absurd (ground arith)
  push_more-Pushed v ttl (Value.number w) h = absurd (ground arith)
  push_more-Pushed v ttl (Value.list l) h =
      let new : Entry = record { value = Value.list (l ++ v ∷ []); ttl = ttl } in
      (store key (some new) k, refl, Holds-store (some new) refl, OnlyAt-store (some new))

  push_first-Pushed :
      (v : String) (o : Option Entry)
      → is_queue o ≡ true
      → Pushed key (items o ++ v ∷ []) k (push_first key v k o)
  push_first-Pushed v none h =
      let new : Entry = record { value = Value.list (v ∷ []); ttl = none } in
      (store key (some new) k, refl, Holds-store (some new) refl, OnlyAt-store (some new))
  push_first-Pushed v (some e) h = push_more-Pushed v e.ttl e.value h

  -- A push onto a queue appends to it, and changes no other key.
  pub rpush-Holds :
      (v : String) (l : List String) → Holds k key l → Pushed key (l ++ v ∷ []) k (rpush key v k)
  rpush-Holds v l (h, e) = rw (← e) (push_first-Pushed v (k key) h)

  pop_first-Popped : (ttl : Option _) (l : List String) → Popped key l k (pop_first key k ttl l)
  pop_first-Popped ttl [] = refl
  pop_first-Popped ttl (v ∷ []) = (store key none k, refl, Holds-store none refl, OnlyAt-store none)
  pop_first-Popped ttl (v ∷ w ∷ l) =
      let new : Entry = record { value = Value.list (w ∷ l); ttl = ttl } in
      (store key (some new) k, refl, Holds-store (some new) refl, OnlyAt-store (some new))

  pop_value-Popped :
      (ttl : Option _) (v : Value)
      → is_list v ≡ true
      → Popped key (list_of v) k (pop_value key k ttl v)
  pop_value-Popped ttl (Value.text w) h = absurd (ground arith)
  pop_value-Popped ttl (Value.number w) h = absurd (ground arith)
  pop_value-Popped ttl (Value.list l) h = pop_first-Popped ttl l

  pop_from-Popped :
      (o : Option Entry) → is_queue o ≡ true → Popped key (items o) k (pop_from key k o)
  pop_from-Popped none h = refl
  pop_from-Popped (some e) h = pop_value-Popped e.ttl e.value h

  -- A pop takes the first item of a queue, or finds it empty, and changes no other key.
  pub blpop-Holds : (l : List String) → Holds k key l → Popped key l k (blpop key k)
  blpop-Holds l (h, e) = rw (← e) (pop_from-Popped (k key) h)
