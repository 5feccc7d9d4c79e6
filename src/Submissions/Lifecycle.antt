-- ===== src/Submissions/Lifecycle.antt =====
-- The life of a sale over all the modelled methods of
-- backend/src/submissions/submissions.service.ts: the edges between statuses, what holds of a row
-- between calls, and what it means that one table evolves into another.
pub mod Moves
pub mod Decisions
pub mod Records
pub mod Handover
pub mod Amend
pub mod Runs
use vfw.Prelude.{
  ℕ, ◌++◌, [], ◌∷◌, ◌==◌, ==_iff, ◌≡◌, ◌≢◌, ◌⊎◌, inl, inr, refl, sym, ◌∙◌, Bool, true, false,
  Option, none, some, List, if◌then◌else◌, arith, Bool-cases, Option-cases,
}
use mathlib.Core.Option.{some-injective}
use mathlib.Core.Path.{subst}
use vfw.Store.{
  Submission, SubmissionStatus, draft, pending, returned, approved, rejected, exported, voided,
}
use vfw.Store.Table.{
  find, modify, find-modify, find-append, find-append_none, find_only, find_before, map_some,
}
use vfw.Submissions.{sale_id}
use vfw.Submissions.Voiding.{restore_to}

-- The edges of the lifecycle. A void is not one of them: a voided sale keeps the status it had.
infix 40 ◌⟶◌ ◌⟶*◌
pub data ◌⟶◌ : SubmissionStatus → SubmissionStatus → Type 0 where
  submit : draft ⟶ pending
  resubmit : returned ⟶ pending
  approve : pending ⟶ approved
  reject : pending ⟶ rejected
  return : pending ⟶ returned
  export : approved ⟶ exported

pub data ◌⟶*◌ : SubmissionStatus → SubmissionStatus → Type 0 where
  here : {s : SubmissionStatus} → s ⟶* s
  next : {s t u : SubmissionStatus} → s ⟶ t → t ⟶* u → s ⟶* u

pub ⟶*_trans : {s t u : SubmissionStatus} → s ⟶* t → t ⟶* u → s ⟶* u
⟶*_trans here q = q
⟶*_trans (next e p) q = next e (⟶*_trans p q)

-- The status of a sale, or the one it goes back to when it is voided.
abbrev pub standing : SubmissionStatus → Option SubmissionStatus → SubmissionStatus
standing voided from = restore_to from
standing s from = s

module _ {D : Type 0} where
  abbrev pub stage : Submission D → SubmissionStatus
  stage s = standing s.status s.voided_from

  pub record IsSound (s : Submission D) : Type 0 where
    -- A voided sale remembers the status it had, and no other sale remembers one.
    pub remembers : s.status ≡ voided → (s.voided_from ≢ none) × (s.voided_from ≢ some voided)
    pub live : s.status ≢ voided → s.voided_from ≡ none
    -- A request for a second signature is outstanding only on a sale that awaits a decision.
    pub asks : s.override_requested_by ≢ none → stage s ≡ pending
    -- An approved sale says who approved it, and an exported one what QuickBooks calls it.
    pub signed : (stage s ≡ approved) ⊎ (stage s ≡ exported) → s.approved_by ≢ none
    pub posted : stage s ≡ exported → s.qb_doc_number ≢ none

  -- Every sale of the first table is in the second, by way of the edges, and as sound as it was; and
  -- every sale of the second table was in the first, or is sound.
  abbrev pub Evolves : List (Submission D) → List (Submission D) → Type 0
  Evolves xs ys =
      ((j : ℕ) (s : Submission D)
        → find sale_id j xs ≡ some s
        → (t : Submission D) × (find sale_id j ys ≡ some t)
          × (IsSound s → (stage s ⟶* stage t) × IsSound t))
      × ((j : ℕ) (t : Submission D)
          → find sale_id j ys ≡ some t
          → ((s : Submission D) × (find sale_id j xs ≡ some s)) ⊎ IsSound t)

  pub Evolves-refl : (xs : List (Submission D)) → Evolves xs xs
  Evolves-refl xs = (λ j s e. (s, e, λ h. (here, h)), λ j t e. inl (t, e))

  -- All sales of the second table are sound, if all of the first are.
  pub Evolves-IsSound :
      (xs ys : List (Submission D))
      → Evolves xs ys
      → (j : ℕ) (t : Submission D) → find sale_id j ys ≡ some t
      → ((s : Submission D) → find sale_id j xs ≡ some s → IsSound s)
      → IsSound t
  Evolves-IsSound xs ys p j t found sound = elim (p.1 j t found) [
    | inl (s, e) ↦
        let (t', found', moves) = p.0 j s e in
        subst IsSound (some-injective _ _ (sym found' ∙ found)) (moves (sound s e)).1
    | inr h ↦ h
  ]

  pub Evolves-append :
      (xs : List (Submission D)) (x : Submission D) → IsSound x → Evolves xs (xs ++ (x ∷ []))
  Evolves-append xs x sound = (
    λ j s e. (s, find-append sale_id j xs (x ∷ []) s e, λ h. (here, h)),
    λ j t e. elim (Option-cases (find sale_id j xs)) [
      | inl missing ↦ inr (
          subst IsSound
            (find_only sale_id j x t (sym (find-append_none sale_id j xs (x ∷ []) missing) ∙ e))
            sound)
      | inr (s, found) ↦ inl (s, found)
    ],
  )

  pub Evolves-trans :
      (xs ys zs : List (Submission D)) → Evolves xs ys → Evolves ys zs → Evolves xs zs
  Evolves-trans xs ys zs p q = (
    λ j s e.
        let (t, found, first) = p.0 j s e in
        let (u, found', second) = q.0 j t found in
        (
          u,
          found',
          λ h.
              let (way, sound) = first h in
              let (way', sound') = second sound in (⟶*_trans way way', sound'),
        ),
    λ j u e. elim (q.1 j u e) [
      | inl (t, found) ↦ elim (p.1 j t found) [
        | inl known ↦ inl known
        | inr sound ↦
            let (u', found', second) = q.0 j t found in
            inr (subst IsSound (some-injective _ _ (sym found' ∙ e)) (second sound).1)
      ]
      | inr sound ↦ inr sound
    ],
  )

  pub Evolves-modify :
      (id : ℕ) (f : Submission D → Submission D) (xs : List (Submission D)) (s : Submission D)
      → ((x : Submission D) → (f x).id ≡ x.id)
      → find sale_id id xs ≡ some s
      → (IsSound s → (stage s ⟶* stage (f s)) × IsSound (f s))
      → Evolves xs (modify sale_id id f xs)
  Evolves-modify id f xs s keeps e moves = (
    λ j t found. elim (Bool-cases (id == j)) [
      | inl same ↦
          let here_too : find sale_id id xs ≡ some t = rw ((==_iff id j).0 same) found in
          let is_s : s ≡ t = some-injective _ _ (sym e ∙ here_too) in
          (
            f t,
            rw (find-modify sale_id id j f xs keeps, same, found),
            subst (λ x. IsSound x → (stage x ⟶* stage (f x)) × IsSound (f x)) is_s moves,
          )
      | inr other ↦ (t, rw (find-modify sale_id id j f xs keeps, other) found, λ h. (here, h))
    ],
    λ j t found. inl (find_before sale_id id j f xs t keeps found),
  )
