-- ===== src/Policy/Reading/Keys.antt =====
-- internal/policy/document.go: the keys of a document that was parsed.
use hydrascale.Common.{
  true, false, List, [], ◌∷◌, Text, text_eq, mem, nodup, ◌≡◌, refl, inl, inr, Bool-cases,
  Result-cases, ok, arith, ==_iff, ap, sym, ◌∙◌, map, All-mem_self,
}
use hydrascale.Policy.Tree.{
  HuJson, Value, Content, object, Members, no_members, member, member_name,
}
use hydrascale.Policy.Reading
use hydrascale.Policy.Reading.{ParseError}
use hydrascale.Policy.Change.{Change, names, section_of, apply_changes}
use hydrascale.Policy.Change.Kept.{apply_changes-IsKept}

module _ (hu : HuJson) where
  reject_names-fresh :
      (text : Text) (seen : List Text) (ms : Members)
      → Reading.reject_names hu text seen ms ≡ ok tt
      → (nodup (names hu ms) ≡ true)
        × ((a : Text) → mem a seen ≡ true → mem a (names hu ms) ≡ false)
  unfolding Reading.reject_names names
  reject_names-fresh text seen no_members h = (refl, λ a m. refl)
  reject_names-fresh text seen (member n b c a rest) h =
      elim (Bool-cases (mem (member_name hu n) seen)) [
        | inl held ↦ absurd (ground (arith, h, held))
        | inr new ↦
            let (distinct, fresh) =
              reject_names-fresh text (member_name hu n ∷ seen) rest (ground (arith, h, new)) in
            (
              ground (
                arith,
                distinct,
                fresh (member_name hu n),
                ==_iff (member_name hu n) (member_name hu n),
              ),
              λ x m. ground (arith, fresh x, m, new, ==_iff (member_name hu n) x),
            )
      ]

  reject_object :
      (text : Text) (ms : Members) (extra : Text) (root : Content) {done : Unit {0}}
      → root ≡ object ms extra
      → Reading.reject_duplicate_top_level_keys hu text root ≡ ok done
      → Reading.reject_names hu text [] ms ≡ ok tt
  unfolding Reading.reject_duplicate_top_level_keys
  reject_object text ms extra root e h =
      sym (ap (Reading.reject_duplicate_top_level_keys hu text) e) ∙ h

  parse-nodup :
      (text : Text) (root : Value) (ms : Members) (extra : Text)
      → Reading.parse hu text ≡ ok root
      → root.content ≡ object ms extra
      → nodup (names hu ms) ≡ true
  unfolding Reading.parse Reading.reject_duplicate_top_level_keys
  parse-nodup text root ms extra h e = elim (Result-cases (hu.parse text)) [
    | inr (failure, bad) ↦ absurd (ground (arith, h, bad))
    | inl (tree, good) ↦
        elim (Result-cases (Reading.reject_duplicate_top_level_keys hu text tree.content)) [
          | inr (failure, twice) ↦ absurd (ground (arith, h, good, twice))
          | inl (done, once) ↦
              let same : tree ≡ root = ground (arith, h, good, once) in
              (reject_names-fresh text [] ms (
                reject_object text ms extra tree.content (ap (λ (x : Value). x.content) same ∙ e)
                  once)).0
        ]
  ]

  -- A policy document that Parse accepts holds no top-level key twice, and none after any session
  -- of edits on it, whether they fail or not.
  pub parse-apply_changes-nodup :
      (text : Text) (root : Value) (ms : Members) (extra : Text) (changes : List Change)
      → Reading.parse hu text ≡ ok root
      → root.content ≡ object ms extra
      → (after : Members) × (apply_changes hu changes root.content ≡ object after extra)
        × (nodup (names hu after) ≡ true)
  parse-apply_changes-nodup text root ms extra changes h e =
      let (after, done, kept, distinct) =
        apply_changes-IsKept hu (map section_of changes) changes ms extra
          (All-mem_self (map section_of changes)) in
      (after, rw e done, distinct (parse-nodup text root ms extra h e))
