-- ===== src/HostAccess/Sets.antt =====
-- internal/hostaccess/routes.go: the sets of routes.
use hydrascale.Common.{
  true, not, ◌&&◌, ◌||◌, ◌≡◌, refl, inl, inr, List, [], ◌∷◌, ◌++◌, Text, text_eq, ◌==◌, ==_iff,
  ==_refl, mem, keep, mem-append, nodup, if◌then◌else◌, Bool-cases, arith,
}

-- The destinations to add and to remove.
unfoldable pub diff_routes : List Text → List Text → List Text × List Text
diff_routes desired actual =
    (keep (λ ip. not (mem ip actual)) desired, keep (λ ip. not (mem ip desired)) actual)

-- One of the two loops of `mergeRoutes`: what it appends, given the routes that were seen.
unseen : List Text → List Text → List Text
unseen seen [] = []
unseen seen (r ∷ rs) =
    let skipped = unseen seen rs in
    let taken = unseen (r ∷ seen) rs in if mem r seen then skipped else r ∷ taken

unfoldable pub merge_routes : List Text → List Text → List Text
unfolding unseen
merge_routes a b = unseen [] (a ++ b)

mem-unseen :
    (seen rs : List Text) (x : Text) → mem x (unseen seen rs) ≡ (mem x rs && not (mem x seen))
unfolding unseen
mem-unseen seen [] x = refl
mem-unseen seen (r ∷ rs) x = elim (Bool-cases (r == x)) [
  | inl same ↦
      rw ((==_iff r x).0 same)
        (ground (arith, ==_refl x, mem-unseen seen rs x, mem-unseen (x ∷ seen) rs x))
  | inr other ↦ ground (arith, other, mem-unseen seen rs x, mem-unseen (r ∷ seen) rs x)
]

nodup-unseen : (seen rs : List Text) → nodup (unseen seen rs) ≡ true
unfolding unseen
nodup-unseen seen [] = refl
nodup-unseen seen (r ∷ rs) =
    ground (
      arith,
      nodup-unseen seen rs,
      nodup-unseen (r ∷ seen) rs,
      mem-unseen (r ∷ seen) rs r,
      ==_refl r,
    )

-- The merged list holds each route of the two lists once.
pub merge_routes_lem :
    (a b : List Text)
    → (nodup (merge_routes a b) ≡ true)
      × ((x : Text) → mem x (merge_routes a b) ≡ (mem x a || mem x b))
unfolding merge_routes
merge_routes_lem a b =
    (nodup-unseen [] (a ++ b), λ x. ground (arith, mem-unseen [] (a ++ b) x, mem-append x a b))
