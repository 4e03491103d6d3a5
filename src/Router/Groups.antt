-- ===== src/Router/Groups.antt =====
-- `group_by_device` of kv-service/server/src/router.rs, which sorts a batch of keys by their device,
-- and the devices of the chunks of one object.
use context_store.Prelude.{
  ℕ, zero, suc, ◌+◌, ◌-◌, subst, ◌%◌, ◌^◌, ◌<◌, Option, none, some, List, [], ◌∷◌, ◌++◌, length,
  ◌==◌, if◌then◌else◌, ◌≡◌, ◌≢◌, refl, ap, ap₂, sym, ◌∙◌, arith, append_assoc, append-nil,
}
use native.Mathlib.Nat.{mod-eq_of_lt}
use context_store.Router.{ObjectKey}
use context_store.Router.Files.{ShardRouter, route, chunk_device, to_route}

-- `vec![Vec::new(); n]`
unfoldable pub empty_groups : ℕ → List (List ObjectKey)
empty_groups zero = []
empty_groups (suc n) = [] ∷ empty_groups n

-- `groups[i].push(k)`
unfoldable pub push_at : ℕ → ObjectKey → List (List ObjectKey) → List (List ObjectKey)
push_at i k [] = []
push_at zero k (g ∷ groups) = (g ++ k ∷ []) ∷ groups
push_at (suc i) k (g ∷ groups) = g ∷ push_at i k groups

-- `enumerate().filter(|(_, v)| !v.is_empty())`
unfoldable pub numbered : ℕ → List (List ObjectKey) → List (ℕ × List ObjectKey)
numbered i [] = []
numbered i ([] ∷ groups) = numbered (suc i) groups
numbered i ((k ∷ ks) ∷ groups) = (i, k ∷ ks) ∷ numbered (suc i) groups

apart : (n a k d : ℕ) → 0 < k → k < n → a % n ≡ d → (a + k) % n ≡ d → ⊥
apart n a k d h l p q = grind arith

module _ (hash64 : List ℕ → ℕ) (router : ShardRouter) where
  -- The loop over the keys; `route` panics without devices.
  unfoldable pub push_keys : List ObjectKey → List (List ObjectKey) → Option (List (List ObjectKey))
  unfolding push_at route
  push_keys [] groups = some groups
  push_keys (k ∷ keys) groups = elim (route hash64 router k) [
    | none ↦ none
    | some device ↦ push_keys keys (push_at device k groups)
  ]

  unfoldable pub group_by_device : List ObjectKey → Option (List (ℕ × List ObjectKey))
  unfolding push_keys empty_groups numbered
  group_by_device keys = elim (push_keys keys (empty_groups (length router.devices))) [
    | none ↦ none
    | some groups ↦ some (numbered 0 groups)
  ]

  -- The keys of one device, in their order.
  abbrev pub keys_of : ℕ → List ObjectKey → List ObjectKey
  keys_of device [] = []
  keys_of device (k ∷ keys) =
      if to_route hash64 router k == device then k ∷ keys_of device keys else keys_of device keys

  -- The groups of `n` devices from `device` on, those with no key left out.
  abbrev pub group : ℕ → List ObjectKey → List (ℕ × List ObjectKey) → List (ℕ × List ObjectKey)
  group device [] rest = rest
  group device (k ∷ ks) rest = (device, k ∷ ks) ∷ rest

  abbrev pub groups_of : ℕ → ℕ → List ObjectKey → List (ℕ × List ObjectKey)
  groups_of device zero keys = []
  groups_of device (suc n) keys = group device (keys_of device keys) (groups_of (suc device) n keys)

  -- Each group with the keys of its device behind it.
  filled : ℕ → List ObjectKey → List (List ObjectKey) → List (List ObjectKey)
  filled device keys [] = []
  filled device keys (g ∷ groups) = (g ++ keys_of device keys) ∷ filled (suc device) keys groups

  filled_nil : (device : ℕ) (groups : List (List ObjectKey)) → filled device [] groups ≡ groups
  unfolding filled
  filled_nil device [] = refl
  filled_nil device (g ∷ groups) =
      ap₂ (λ a b. a ∷ b) (append-nil g) (filled_nil (suc device) groups)

  filled_skip :
      (device : ℕ) (k : ObjectKey) (keys : List ObjectKey) (groups : List (List ObjectKey))
      → to_route hash64 router k < device
      → filled device (k ∷ keys) groups ≡ filled device keys groups
  unfolding filled
  filled_skip device k keys [] h = refl
  filled_skip device k keys (g ∷ groups) h = ground (arith, filled_skip (suc device) k keys groups)

  filled-push_at :
      (i device : ℕ) (k : ObjectKey) (keys : List ObjectKey) (groups : List (List ObjectKey))
      → to_route hash64 router k ≡ i + device
      → filled device keys (push_at i k groups) ≡ filled device (k ∷ keys) groups
  unfolding filled push_at
  filled-push_at i device k keys [] h = refl
  filled-push_at zero device k keys (g ∷ groups) h =
      ground (
        arith,
        append_assoc g (k ∷ []) (keys_of device keys),
        filled_skip (suc device) k keys groups,
      )
  filled-push_at (suc i) device k keys (g ∷ groups) h =
      ground (arith, filled-push_at i (suc device) k keys groups)

  numbered-filled :
      (device n : ℕ) (keys : List ObjectKey)
      → numbered device (filled device keys (empty_groups n)) ≡ groups_of device n keys
  unfolding numbered filled empty_groups
  numbered-filled device zero keys = refl
  numbered-filled device (suc n) keys =
      numbered_group (keys_of device keys) (filled (suc device) keys (empty_groups n))
      ∙ ap (group device (keys_of device keys)) (numbered-filled (suc device) n keys)
    where
      numbered_group :
          (ks : List ObjectKey) (groups : List (List ObjectKey))
          → numbered device (ks ∷ groups) ≡ group device ks (numbered (suc device) groups)
      numbered_group [] groups = refl
      numbered_group (k ∷ ks) groups = refl

  push_keys-filled :
      (keys : List ObjectKey) (groups : List (List ObjectKey))
      → 0 < length router.devices
      → push_keys keys groups ≡ some (filled 0 keys groups)
  unfolding push_keys route
  push_keys-filled [] groups h = ap some (sym (filled_nil 0 groups))
  push_keys-filled (k ∷ keys) groups h = ground (
    arith,
    push_keys-filled keys (push_at (to_route hash64 router k) k groups),
    filled-push_at (to_route hash64 router k) 0 k keys groups,
  )

  -- With devices, a batch is cut into one group for each device that has keys in it, in the order of
  -- the devices, and each group is all the keys of the batch that are routed to its device, in the
  -- order of the batch.
  pub group_by_device_lem :
      (keys : List ObjectKey)
      → 0 < length router.devices
      → group_by_device keys ≡ some (groups_of 0 (length router.devices) keys)
  unfolding group_by_device
  group_by_device_lem keys h =
      rw (group_by_device, push_keys-filled keys (empty_groups (length router.devices)) h)
        (ap some (numbered-filled 0 (length router.devices) keys))

  chunk_device-mod :
      (key : ObjectKey) (i d : ℕ)
      → to_route hash64 router key + i < 2 ^ 64
      → chunk_device hash64 router key i ≡ some d
      → (to_route hash64 router key + i) % length router.devices ≡ d
  unfolding chunk_device
  chunk_device-mod key i d w p = ground (arith, mod-eq_of_lt {n = to_route hash64 router key + i} w)

  -- Two different chunks of an object, fewer apart than there are devices and with numbers that do
  -- not wrap, lie on different devices.
  pub chunk_device-injective :
      (key : ObjectKey) (i j d e : ℕ)
      → i < j
      → j < i + length router.devices
      → to_route hash64 router key + j < 2 ^ 64
      → chunk_device hash64 router key i ≡ some d
      → chunk_device hash64 router key j ≡ some e
      → d ≢ e
  chunk_device-injective key i j d e h k w p q same =
      apart (length router.devices) (to_route hash64 router key + i) (j - i) d (omega arith)
        (omega arith) (chunk_device-mod key i d (omega arith) p)
        (subst (λ c. c % length router.devices ≡ d) (omega arith)
          (chunk_device-mod key j e w q ∙ sym same))
