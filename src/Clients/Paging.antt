-- ===== src/Clients/Paging.antt =====
-- Listings in several segments, in the walk of pkg/chbackup/azblob.go.
use clickhouse_backup.Base.{
  ℕ, zero, suc, ◌≤◌, Text, ◌≡◌, refl, ap, true, false, Option, none, List, [], ◌∷◌, ◌++◌, map,
  length, ok, arith,
}
use clickhouse_backup.Clients.{all_pages}
use clickhouse_backup.Clients.Azure.{AzureApi, BlobItem, not_done, item_file, walk_from}

-- From the marker on, the service answers with these segments, each with the marker of the next.
abbrev pub IsListing : (A : AzureApi) → A.State → Text → Option Text → List (List BlobItem) → Type 0
IsListing A s prefix marker [] = not_done marker ≡ false
IsListing A s prefix marker (items ∷ segments) =
    (not_done marker ≡ true)
    × (next : Option Text) × (A.list_segment s marker prefix
        ≡ ok (record { items = items; next_marker = next }))
    × IsListing A s prefix next segments

module _ (A : AzureApi) (s : A.State) (prefix : Text) where
  -- If the service answers with a chain of segments, the last of which has an empty marker, the
  -- walk of the client of Azure ends without an error once its fuel is as large as their number,
  -- and it shows the blobs of all segments in their order.
  pub walk_from-IsListing :
      (segments : List (List BlobItem)) (marker : Option Text) (fuel : ℕ)
      → IsListing A s prefix marker segments
      → length segments ≤ fuel
      → walk_from A fuel prefix marker s ≡ (all_pages (map (map item_file) segments), none)
  unfolding walk_from
  walk_from-IsListing [] marker zero done enough = refl
  walk_from-IsListing [] marker (suc fuel) done enough = rw done refl
  walk_from-IsListing (items ∷ segments) marker zero listing enough = absurd (omega (arith, enough))
  walk_from-IsListing (items ∷ segments) marker (suc fuel) (more, next, answered, listing) enough =
      rw (more, answered)
        (ap (λ r. (map item_file items ++ r.0, r.1))
          (walk_from-IsListing segments next fuel listing (omega (arith, enough))))
