-- ===== src/External/Redis/Keys.antt =====
-- What a change of one key leaves of the keys.
use mzl_payment_app.Common.{String, ◌==◌, false, ◌≡◌, refl, Option, eq_iff}
use mzl_payment_app.External.Redis.{Entry, Keyspace, store}

pub store_self : (key : String) (e : Option Entry) (k : Keyspace) → store key e k key ≡ e
store_self key e k = rw ((eq_iff key key).1 refl) refl

pub store_other :
    (key j : String) (e : Option Entry) (k : Keyspace) → (key == j) ≡ false → store key e k j ≡ k j
store_other key j e k h = rw (h) refl
