-- ===== src/Healthcheck/Probe/Due.antt =====
-- handler/healthcheck.go: a check is stored, and when the item is checked again.
use redins.Prelude.{
  ltb, if◌then◌else◌, Text, trim_prefix-append, ℕ, min, ◌+◌, ◌-◌, ◌≤◌, ◌≡◌, refl, Option, none,
  some, [], ◌∷◌, ◌++◌, arith,
}
use redins.Healthcheck.{Item, status_up, status_down}
use redins.Healthcheck.Store.{
  StatusServer, status_prefix, store_item, key_of, IsStorable, load_item-store_item,
}
use redins.Healthcheck.Probe.{
  Network, CheckError, run_check, checked, handle_health_check, queue_items, max_duration,
  log_healthcheck,
}

-- The item keeps its key.
key_of-checked :
    (now : ℕ) (item : Item) (error : Option CheckError)
    → key_of (checked now item error) ≡ key_of item
unfolding checked status_up status_down
key_of-checked now item none = refl
key_of-checked now item (some error) = refl

checked_last :
    (now : ℕ) (item : Item) (error : Option CheckError) → (checked now item error).last_check ≡ now
unfolding checked
checked_last now item none = refl
checked_last now item (some error) = refl

due_after :
    (interval now t : ℕ)
    → t - now ≤ max_duration
    → ltb interval (min (t - now) max_duration) ≡ ltb (now + interval) t
due_after interval now t h = ground arith

module _ (r : StatusServer) (encode : Item → Option Text) (decode : Text → Item → Item)
    (check_interval : ℕ) (net : Network) where
  -- An item that is checked at `now` is stored with its new status: from then on it is queued for
  -- another check exactly when more than the check interval has passed, as it is stored. The check
  -- ends without a panic, the item can be stored, and the time is in the range of a duration.
  pub handle_health_check-due :
      (s : r.State) (now t : ℕ) (item : Item) (error : Option CheckError)
      → run_check net item ≡ some error
      → IsStorable encode decode (checked now item error)
      → t - now ≤ max_duration
      → (after : r.State) × (handle_health_check r encode decode check_interval net s now item
          ≡ some (after, log_healthcheck (checked now item error) error))
        × (queue_items r encode decode check_interval t after ((status_prefix ++ key_of item) ∷ [])
            ≡ (if ltb (now + check_interval) t then checked now item error ∷ [] else []))
  unfolding handle_health_check queue_items
  handle_health_check-due s now t item error e h range =
      let item' = checked now item error in
      let after = store_item r encode s item' in
      (
        after,
        rw e,
        rw
            (
              trim_prefix-append status_prefix (key_of item),
              ← key_of-checked now item error,
              load_item-store_item r encode decode s item' h,
              checked_last now item error,
              due_after check_interval now t range,
            )
            refl,
      )
