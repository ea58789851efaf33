-- ===== src/Healthcheck/Store.antt =====
-- handler/healthcheck.go: the server of the statuses, and what storeItem writes there.
use redins.Prelude.{
  Option-cases, ◌≤ℤ◌, ltb_ℤ, pos, All, Text, codes, split_after, ℕ, ◌<◌, ◌≡◌, ap, ◌∙◌, ◌≢◌, inl,
  inr, false, Option, none, some, List, ◌++◌, arith,
}
use redins.Healthcheck.{Item, new_item, item_key, load_item, load_parts, fix_down_count}
use redins.Healthcheck.Items.{load_item-item_key}

-- Redis as github.com/hawell/uperdis calls it: GET, SET, EXPIRE and KEYS, `none` for an error. A key
-- is read before it expires, so a positive time to live changes nothing that is read.
pub record StatusServer : Type 1 where
  pub State : Type 0
  pub get : State → Text → Option Text
  pub set : State → Text → Text → State
  pub expire : State → Text → ℕ → State
  pub get_keys : State → Text → Option (List Text)
  pub get-set_self : (s : State) (k v : Text) → get (set s k v) k ≡ some v
  pub get-set_ne : (s : State) (k j v : Text) → k ≢ j → get (set s k v) j ≡ get s j
  pub get-expire : (s : State) (k j : Text) (ttl : ℕ) → 0 < ttl → get (expire s k ttl) j ≡ get s j

abbrev pub status_prefix : Text
status_prefix = codes "redins:healthcheck:"

-- The key of an item.
abbrev pub key_of : Item → Text
key_of item = item_key item.host item.ip

-- `encode` is jsoniter.Marshal, `none` for an error.
module _ (r : StatusServer) (encode : Item → Option Text) where
  unfoldable pub write_item : r.State → Text → Option Text → r.State
  write_item s key none = s
  write_item s key (some str) = r.set s (status_prefix ++ key) str

  unfoldable pub store_item : r.State → Item → r.State
  unfolding write_item
  store_item s item = write_item s (key_of item) (encode item)

-- What the json package promises of an item: its fields come back, over the host and the address
-- that are not encoded.
abbrev pub RoundTrips : (Item → Option Text) → (Text → Item → Item) → Item → Type 0
RoundTrips encode decode item =
    (str : Text) × (encode item ≡ some str)
    × (decode str (record new_item { host = item.host; ip = item.ip }) ≡ item)

-- An item that is loaded under its key as it is stored.
pub record IsStorable (encode : Item → Option Text) (decode : Text → Item → Item) (item : Item)
    : Type 0 where
  pub plain : All (λ c. c ≢ b':') item.host
  pub round_trip : RoundTrips encode decode item
  pub down : item.down_count ≤ℤ pos 0

prefix_cancel : (a b : Text) → status_prefix ++ a ≡ status_prefix ++ b → a ≡ b
prefix_cancel a b h = cc

fix_down_count_self : (item : Item) → item.down_count ≤ℤ pos 0 → fix_down_count item ≡ item
unfolding fix_down_count
fix_down_count_self item h = let e : ltb_ℤ (pos 0) item.down_count ≡ false = ground arith in rw e

module _ (r : StatusServer) (encode : Item → Option Text) (decode : Text → Item → Item) where
  -- A positive down count is negated when an item is read back.
  pub load_item-store_item_any :
      (s : r.State) (item : Item)
      → All (λ c. c ≢ b':') item.host
      → RoundTrips encode decode item
      → load_item (r.get (store_item r encode s item)) decode (key_of item)
        ≡ some (fix_down_count item)
  unfolding store_item
  load_item-store_item_any s item plain (str, written, back) = rw written (
      load_item-item_key (r.get (r.set s (status_prefix ++ key_of item) str)) decode item.host
        item.ip str plain (r.get-set_self s (status_prefix ++ key_of item) str)
      ∙ ap (λ (i : Item). some (fix_down_count i)) back)

  pub load_item-store_item :
      (s : r.State) (item : Item)
      → IsStorable encode decode item
      → load_item (r.get (store_item r encode s item)) decode (key_of item) ≡ some item
  load_item-store_item s item h =
      load_item-store_item_any s item h.plain h.round_trip
      ∙ ap some (fix_down_count_self item h.down)

  -- What is loaded under a key depends on what redis has under it.
  load_item_same :
      (s t : r.State) (key : Text)
      → r.get s (status_prefix ++ key) ≡ r.get t (status_prefix ++ key)
      → load_item (r.get s) decode key ≡ load_item (r.get t) decode key
  unfolding load_item
  load_item_same s t key h = elim (Option-cases (split_after b':' key)) [
    | inl e ↦ unfold load_parts in rw e
    | inr (parts, e) ↦ unfold load_parts in rw (e, h)
  ]

  pub load_item-store_item_ne :
      (s : r.State) (item : Item) (key : Text)
      → key_of item ≢ key
      → load_item (r.get (store_item r encode s item)) decode key ≡ load_item (r.get s) decode key
  unfolding store_item
  load_item-store_item_ne s item key ne = elim (Option-cases (encode item)) [
    | inl e ↦ rw e
    | inr (str, e) ↦ rw e (
        load_item_same (r.set s (status_prefix ++ key_of item) str) s key (
          r.get-set_ne s (status_prefix ++ key_of item) (status_prefix ++ key) str
            (λ same. ne (prefix_cancel _ _ same))))
  ]

  pub load_item-expire :
      (s : r.State) (k key : Text) (ttl : ℕ)
      → 0 < ttl
      → load_item (r.get (r.expire s k ttl)) decode key ≡ load_item (r.get s) decode key
  load_item-expire s k key ttl h =
      load_item_same (r.expire s k ttl) s key (r.get-expire s k (status_prefix ++ key) ttl h)
