-- ===== src/Healthcheck/Transfer/Pass.antt =====
-- handler/healthcheck.go: what a round of Transfer leaves in redis, where it is not told to quit.
use redins.Prelude.{
  All, Text, ℕ, ◌<◌, ◌≡◌, refl, ◌∙◌, ◌≢◌, inl, inr, Bool, false, Option, some, List, [], ◌∷◌, ◌++◌,
}
use redins.Healthcheck.{Item, transfer_item, load_item}
use redins.Healthcheck.Store.{
  StatusServer, status_prefix, key_of, IsStorable, load_item-store_item, load_item-store_item_ne,
  load_item-expire,
}
use redins.Healthcheck.Items.{MatchesConfig, transfer_item_lem}
use redins.Healthcheck.Transfer.{ConfigServer, Codec, store_transferred, transfer_pass}
use redins.Healthcheck.Transfer.Items.{
  items_of_zones, update_item, update_items, update_items-append, transfer_pass-eq-items,
}

module _ (r : StatusServer) (config : ConfigServer) (codec : Codec) (update_interval : ℕ) where
  abbrev update : r.State → Item → r.State
  update = update_item r config codec update_interval

  abbrev update_all : r.State → List Item → r.State
  update_all = update_items r config codec update_interval

  abbrev loaded : r.State → Text → Option Item
  loaded s key = load_item (r.get s) codec.decode key

  -- Redis has an item under the key that agrees with the configured one.
  abbrev pub Agrees : r.State → Item → Type 0
  Agrees s item = (kept : Item) × (loaded s (key_of item) ≡ some kept) × MatchesConfig kept item

  abbrev same_config : (item : Item) → MatchesConfig item item
  same_config item = (refl, refl, refl, refl, refl, refl, refl, refl)

  module _ (positive : 0 < update_interval) where
    update_item-Agrees :
        (s : r.State) (item : Item)
        → IsStorable codec.encode codec.decode item
        → Agrees (update s item) item
    unfolding update_item store_transferred
    update_item-Agrees s item h =
        let old = load_item (r.get s) codec.decode (key_of item) in
        rw
          (load_item-expire r codec.encode codec.decode
            (store_transferred r config codec update_interval s (transfer_item old item))
            (status_prefix ++ key_of item) (key_of item) update_interval positive)
          (elim (transfer_item_lem old item) [
            | inl (stored, _) ↦
                rw stored (
                  item,
                  load_item-store_item r codec.encode codec.decode s item h,
                  same_config item,
                )
            | inr (kept, was, agrees, left) ↦ rw left (kept, was, agrees)
          ])

    -- An item under another key is left.
    update_item_ne :
        (s : r.State) (item : Item) (key : Text)
        → key_of item ≢ key
        → loaded (update s item) key ≡ loaded s key
    unfolding update_item store_transferred
    update_item_ne s item key ne =
        let old = load_item (r.get s) codec.decode (key_of item) in
        load_item-expire r codec.encode codec.decode
          (store_transferred r config codec update_interval s (transfer_item old item))
          (status_prefix ++ key_of item) key update_interval positive
        ∙ elim (transfer_item_lem old item) [
          | inl (stored, _) ↦
              rw stored (load_item-store_item_ne r codec.encode codec.decode s item key ne)
          | inr (kept, was, agrees, left) ↦ rw left refl
        ]

    pub update_items_ne :
        (s : r.State) (items : List Item) (key : Text)
        → All (λ (other : Item). key_of other ≢ key) items
        → loaded (update_all s items) key ≡ loaded s key
    unfolding update_items
    update_items_ne s [] key h = refl
    update_items_ne s (item ∷ items) key (ne, h) =
        update_items_ne (update s item) items key h ∙ update_item_ne s item key ne

    update_items-Agrees :
        (s : r.State) (item : Item) (after : List Item)
        → IsStorable codec.encode codec.decode item
        → All (λ (other : Item). key_of other ≢ key_of item) after
        → Agrees (update_all s (item ∷ after)) item
    unfolding update_items
    update_items-Agrees s item after h last =
        let (kept, was, agrees) = update_item-Agrees s item h in
        (kept, update_items_ne (update s item) after (key_of item) last ∙ was, agrees)

    module _ (quits : ℕ → Bool) (n : ℕ) (s : r.State) (open' : (k : ℕ) → quits k ≡ false) where
      -- After a round of Transfer that is not told to quit, redis has an item for every address whose
      -- check is enabled in some zone, which agrees with the last configuration of its host and
      -- address. The host has no colon, the item is stored and read back without a loss, and its down
      -- count is not positive.
      pub transfer_pass_lem :
          (item : Item) (before after : List Item)
          → items_of_zones config codec ≡ before ++ item ∷ after
          → IsStorable codec.encode codec.decode item
          → All (λ (other : Item). key_of other ≢ key_of item) after
          → Agrees (transfer_pass r config codec update_interval quits n s).0 item
      transfer_pass_lem item before after e h last =
          rw
            (
              transfer_pass-eq-items r config codec update_interval quits open' n s,
              e,
              update_items-append r config codec update_interval s before (item ∷ after),
            )
            (update_items-Agrees (update_all s before) item after h last)

      -- A key that no zone configures loads what it loaded before the round.
      pub transfer_pass_ne :
          (key : Text)
          → All (λ (other : Item). key_of other ≢ key) (items_of_zones config codec)
          → loaded (transfer_pass r config codec update_interval quits n s).0 key ≡ loaded s key
      transfer_pass_ne key h =
          rw (transfer_pass-eq-items r config codec update_interval quits open' n s)
            (update_items_ne s (items_of_zones config codec) key h)
