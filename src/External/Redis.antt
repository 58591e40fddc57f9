-- ===== src/External/Redis.antt =====
-- The commands of Redis that the program sends, as their documented effect on the keys of the
-- server; `none` is an error reply. `External.RedisClient` says how the client may run one.
pub mod Keys
use mzl_payment_app.Common.{
  ℕ, ◌+◌, String, Bool, true, false, Option, none, some, List, [], ◌∷◌, ◌++◌, ◌==◌, if◌then◌else◌,
}

-- A key holds a text, a counter or a list, and may have a time to live, in seconds.
pub data Value : Type 0 where
  text : String → Value
  number : ℕ → Value
  list : List String → Value

pub record Entry : Type 0 where
  pub value : Value
  pub ttl : Option ℕ

abbrev pub Keyspace : Type 0
Keyspace = String → Option Entry

abbrev pub store : String → Option Entry → Keyspace → Keyspace
store key e k j = if key == j then e else k j

abbrev pub Command : Type 0 → Type 0
Command R = Keyspace → Option (R × Keyspace)

-- SET key value EX ttl
abbrev pub set : String → String → ℕ → Command (Unit {0})
set key v ttl k = some (tt, store key (some (record { value = text v; ttl = some ttl })) k)

-- SET key value EX ttl NX
abbrev pub set_nx : String → String → ℕ → Command Bool
set_nx key v ttl k = elim (k key) [
  | none ↦ some (true, store key (some (record { value = text v; ttl = some ttl })) k)
  | some _ ↦ some (false, k)
]

abbrev read_text : Keyspace → Option Entry → Option (Option String × Keyspace)
read_text k none = some (none, k)
read_text k (some e) = elim e.value [ text v ↦ some (some v, k) | number n ↦ none | list l ↦ none ]

-- GET key; a missing key is the nil reply
abbrev pub get : String → Command (Option String)
get key k = read_text k (k key)

-- DEL key
abbrev pub del : String → Command (Unit {0})
del key k = some (tt, store key none k)

abbrev pub count_up : String → Keyspace → Option ℕ → Value → Option (ℕ × Keyspace)
count_up key k ttl (text v) = none
count_up key k ttl (number n) =
    some (n + 1, store key (some (record { value = number (n + 1); ttl = ttl })) k)
count_up key k ttl (list l) = none

abbrev pub count_first : String → Keyspace → Option Entry → Option (ℕ × Keyspace)
count_first key k none = some (1, store key (some (record { value = number 1; ttl = none })) k)
count_first key k (some e) = count_up key k e.ttl e.value

-- INCR key; a text that is no number is an error reply
abbrev pub incr : String → Command ℕ
incr key k = count_first key k (k key)

abbrev pub set_ttl : String → ℕ → Keyspace → Option Entry → Option (Unit {0} × Keyspace)
set_ttl key ttl k none = some (tt, k)
set_ttl key ttl k (some e) =
    some (tt, store key (some (record { value = e.value; ttl = some ttl })) k)

-- EXPIRE key ttl
abbrev pub expire : String → ℕ → Command (Unit {0})
expire key ttl k = set_ttl key ttl k (k key)

abbrev pub push_more : String → String → Keyspace → Option ℕ → Value → Option (Unit {0} × Keyspace)
push_more key v k ttl (text w) = none
push_more key v k ttl (number n) = none
push_more key v k ttl (list l) =
    some (tt, store key (some (record { value = list (l ++ v ∷ []); ttl = ttl })) k)

abbrev pub push_first : String → String → Keyspace → Option Entry → Option (Unit {0} × Keyspace)
push_first key v k none =
    some (tt, store key (some (record { value = list (v ∷ []); ttl = none })) k)
push_first key v k (some e) = push_more key v k e.ttl e.value

-- RPUSH key value
abbrev pub rpush : String → String → Command (Unit {0})
rpush key v k = push_first key v k (k key)

abbrev pub pop_first :
    String → Keyspace → Option ℕ → List String → Option (Option String × Keyspace)
pop_first key k ttl [] = some (none, k)
pop_first key k ttl (v ∷ []) = some (some v, store key none k)
pop_first key k ttl (v ∷ w ∷ l) =
    some (some v, store key (some (record { value = list (w ∷ l); ttl = ttl })) k)

abbrev pub pop_value : String → Keyspace → Option ℕ → Value → Option (Option String × Keyspace)
pop_value key k ttl (text v) = none
pop_value key k ttl (number n) = none
pop_value key k ttl (list l) = pop_first key k ttl l

abbrev pub pop_from : String → Keyspace → Option Entry → Option (Option String × Keyspace)
pop_from key k none = some (none, k)
pop_from key k (some e) = pop_value key k e.ttl e.value

-- BLPOP key 0: `none` stands for a call that goes on waiting
abbrev pub blpop : String → Command (Option String)
blpop key k = pop_from key k (k key)
