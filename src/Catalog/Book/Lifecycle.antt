-- ===== src/Catalog/Book/Lifecycle.antt =====
-- Books whose status and stage agree, the table of the facts that they accept, and the commands.
use raglibrarian.Base.{
  ℕ, ◌+◌, ◌<◌, ◌≤◌, ◌≡◌, ◌⊎◌, inl, inr, refl, Bool, true, false, not, ◌&&◌, ◌||◌, ◌==◌, List, [],
  ◌∷◌, arith, ok, err, if◌then◌else◌, Text, Result, Result-cases, after,
}
use raglibrarian.Catalog.Book.{apply_case, apply_processing_fact, conclude, Outcome}
use raglibrarian.Catalog.Commands.{CommandKind, reindex, delete, apply_lifecycle_command}
use raglibrarian.Catalog.Status.{
  Book, BookStatus, BookStage, BookError, FactKind, FailureCategory, ProcessingFact,
  valid_indexing_failure_category, valid_failure_category, started, indexing_failed, unknown,
  pending, processing, queued, extracting, reindexing, deleting, deleted, not_found,
  invalid_transition,
}
use raglibrarian.Catalog.Book.Facts.{well_formed, apply_lem, apply-unchanged, after_fact}

abbrev pub coherent_at : BookStatus → BookStage → FailureCategory → Bool
coherent_at pending queued _ = true
coherent_at processing extracting _ = true
coherent_at processing BookStage.chunks_ready _ = true
coherent_at BookStatus.indexed BookStage.indexed _ = true
coherent_at BookStatus.failed BookStage.failed c =
    valid_failure_category c || valid_indexing_failure_category c
coherent_at reindexing BookStage.chunks_ready _ = true
coherent_at deleting _ _ = true
coherent_at deleted _ _ = true
coherent_at _ _ _ = false

-- The status and the stage agree, and a failed book has a listed category.
abbrev pub coherent : Book → Bool
coherent b = coherent_at b.status b.stage b.failure_category

-- The table of the facts that move a coherent book.
unfoldable pub accepts : FactKind → BookStatus → BookStage → Bool
accepts started pending queued = true
accepts FactKind.chunks_ready pending queued = true
accepts FactKind.chunks_ready processing extracting = true
accepts FactKind.failed pending queued = true
accepts FactKind.failed processing extracting = true
accepts FactKind.indexed pending queued = true
accepts FactKind.indexed processing _ = true
accepts FactKind.indexed reindexing _ = true
accepts indexing_failed pending queued = true
accepts indexing_failed processing _ = true
accepts indexing_failed reindexing _ = true
accepts _ _ _ = false

after_fact-coherent :
    (k : FactKind) (b : Book) (fact : ProcessingFact)
    → fact.kind ≡ k
    → well_formed fact ≡ true
    → coherent (after_fact k b fact) ≡ true
unfolding after_fact well_formed
after_fact-coherent started b fact e w = refl
after_fact-coherent _ b fact e w = ground arith

abbrev pub is_accepted : Result BookError Bool → Bool
is_accepted (ok true) = true
is_accepted _ = false

accepted-eq : (o : Outcome) → is_accepted o.1 ≡ true → o ≡ (o.0, ok true)
accepted-eq (c, ok true) h = refl
accepted-eq (c, ok false) h = cc
accepted-eq (c, err e) h = cc

-- Every fact keeps a book coherent.
pub apply-coherent :
    (b : Book) (fact : ProcessingFact)
    → coherent b ≡ true
    → coherent (apply_processing_fact b fact).0 ≡ true
apply-coherent b fact v = elim (apply-unchanged b fact) [
  | inl e ↦
      let eq = accepted-eq (apply_processing_fact b fact) (rw e) in
      let (w, _, _, p) = apply_lem b (apply_processing_fact b fact).0 fact eq in
      rw p (after_fact-coherent fact.kind b fact refl w)
  | inr e ↦ rw e v
]

case-accepts :
    (k : FactKind) (b : Book) (fact : ProcessingFact)
    → fact.kind ≡ k
    → coherent b ≡ true
    → is_accepted (apply_case k b fact).1 ≡ (well_formed fact && accepts k b.status b.stage)
unfolding apply_case accepts well_formed conclude
case-accepts started b fact e v = ground arith
case-accepts FactKind.chunks_ready b fact e v = ground arith
case-accepts FactKind.failed b fact e v = ground arith
case-accepts FactKind.indexed b fact e v = ground arith
case-accepts indexing_failed b fact e v = ground arith
case-accepts (unknown n) b fact e v = ground arith

-- A coherent book accepts exactly the well-formed, dated facts of the table.
pub apply-accepts :
    (b : Book) (fact : ProcessingFact)
    → coherent b ≡ true
    → is_accepted (apply_processing_fact b fact).1
      ≡ (not (fact.occurred_at == 0) && (well_formed fact && accepts fact.kind b.status b.stage))
unfolding apply_processing_fact
apply-accepts b fact v = ground (arith, case-accepts fact.kind b fact refl v)

-- How many more facts a book may accept.
unfoldable pub facts_left : Book → ℕ
facts_left b = elim b.status [
  | pending ↦ 3
  | processing ↦ elim b.stage [ extracting ↦ 2 | _ ↦ 1 ]
  | reindexing ↦ 1
  | _ ↦ 0
]

case-facts_left :
    (k : FactKind) (b : Book) (fact : ProcessingFact)
    → coherent b ≡ true
    → accepts k b.status b.stage ≡ true
    → facts_left (after_fact k b fact) < facts_left b
unfolding accepts after_fact facts_left
case-facts_left started b fact v a = ground arith
case-facts_left _ b fact v a = ground arith

-- Facts in the order in which they arrive, and how many of them change the book.
unfoldable pub apply_all : Book → List ProcessingFact → Book × ℕ
apply_all b [] = (b, 0)
apply_all b (fact ∷ facts) =
    let (c, r) = apply_processing_fact b fact in
    let (d, n) = apply_all c facts in (d, if is_accepted r then n + 1 else n)

apply-facts_left :
    (b : Book) (fact : ProcessingFact)
    → coherent b ≡ true
    → is_accepted (apply_processing_fact b fact).1 ≡ true
    → facts_left (apply_processing_fact b fact).0 < facts_left b
unfolding facts_left
apply-facts_left b fact v a =
    let eq = accepted-eq (apply_processing_fact b fact) a in
    let (_, _, _, p) = apply_lem b (apply_processing_fact b fact).0 fact eq in
    rw p (case-facts_left fact.kind b fact v (ground (arith, apply-accepts b fact v)))

apply_all-facts_left :
    (b : Book) (facts : List ProcessingFact)
    → coherent b ≡ true
    → facts_left (apply_all b facts).0 + (apply_all b facts).1 ≤ facts_left b
unfolding apply_all
apply_all-facts_left b [] v = omega arith
apply_all-facts_left b (fact ∷ facts) v = ground (
  arith,
  apply-coherent b fact v,
  apply-facts_left b fact v,
  apply-unchanged b fact,
  apply_all-facts_left (apply_processing_fact b fact).0 facts (apply-coherent b fact v),
)

-- Between two commands at most three facts change a coherent book, and at most one if the book is
-- being reindexed.
pub apply_all_bounded :
    (b : Book) (facts : List ProcessingFact)
    → coherent b ≡ true
    → ((apply_all b facts).1 ≤ 3) × (b.status ≡ reindexing → (apply_all b facts).1 ≤ 1)
unfolding facts_left
apply_all_bounded b facts v = ground (arith, apply_all-facts_left b facts v)

-- A command that is carried out keeps the book coherent and bumps both of its versions by one.
pub command-coherent :
    (b c : Book) (kind : CommandKind) (id : Text) (at : ℕ)
    → coherent b ≡ true
    → apply_lifecycle_command b kind id at ≡ ok c
    → (coherent c ≡ true)
      × (c.version ≡ b.version + 1)
      × (c.lifecycle_version ≡ b.lifecycle_version + 1)
unfolding apply_lifecycle_command
command-coherent b c kind id at v h = ground arith

abbrev pub is_gone : BookStatus → Bool
is_gone deleting = true
is_gone deleted = true
is_gone _ = false

-- A delete command on a book in a listed status that is not being deleted or deleted yet moves it
-- to deleting and marks all its parts as still to be deleted; on any other it is an error.
pub delete_lem :
    (b : Book) (id : Text) (at : ℕ)
    → coherent b ≡ true
    → let r = apply_lifecycle_command b delete id at in
      (is_gone b.status ≡ false
        → (r ≡ ok (after b r))
          × ((after b r).status ≡ deleting)
          × ((after b r).original_deleted ≡ false)
          × ((after b r).artifacts_deleted ≡ false)
          × ((after b r).index_deleted ≡ false))
      × (is_gone b.status ≡ true → (r ≡ err not_found) ⊎ (r ≡ err invalid_transition))
unfolding apply_lifecycle_command
delete_lem b id at v = ground arith

-- Facts and commands as they come.
pub data Event : Type 0 where
  fact_event : ProcessingFact → Event
  command_event : CommandKind → Text → ℕ → Event

unfoldable pub handle : Book → Event → Book
handle b (fact_event fact) = (apply_processing_fact b fact).0
handle b (command_event kind id at) = after b (apply_lifecycle_command b kind id at)

unfoldable pub handle_all : Book → List Event → Book
handle_all b [] = b
handle_all b (e ∷ es) = handle_all (handle b e) es

accepts_gone :
    (k : FactKind) (s : BookStatus) (g : BookStage) → is_gone s ≡ true → accepts k s g ≡ false
unfolding accepts
accepts_gone started s g h = ground arith
accepts_gone _ s g h = ground arith

fact_gone :
    (b : Book) (fact : ProcessingFact)
    → is_gone b.status ≡ true
    → (apply_processing_fact b fact).0 ≡ b
fact_gone b fact h =
    let v : coherent b ≡ true = ground arith in
    ground (
      arith,
      apply-unchanged b fact,
      apply-accepts b fact v,
      accepts_gone fact.kind b.status b.stage h,
    )

command_gone :
    (b : Book) (kind : CommandKind) (id : Text) (at : ℕ)
    → is_gone b.status ≡ true
    → after b (apply_lifecycle_command b kind id at) ≡ b
unfolding apply_lifecycle_command
command_gone b reindex id at h = ground arith
command_gone b _ id at h = ground arith

-- A book that is being deleted or is deleted is changed by none of the facts and commands.
pub handle_all_gone : (b : Book) (es : List Event) → is_gone b.status ≡ true → handle_all b es ≡ b
unfolding handle_all handle
handle_all_gone b [] h = refl
handle_all_gone b (fact_event fact ∷ es) h = rw (fact_gone b fact h) (handle_all_gone b es h)
handle_all_gone b (command_event kind id at ∷ es) h =
    rw (command_gone b kind id at h) (handle_all_gone b es h)

-- A book is coherent after any history of facts and commands.
pub handle_all-coherent :
    (b : Book) (es : List Event) → coherent b ≡ true → coherent (handle_all b es) ≡ true
unfolding handle_all handle
handle_all-coherent b [] v = v
handle_all-coherent b (fact_event fact ∷ es) v =
    handle_all-coherent (apply_processing_fact b fact).0 es (apply-coherent b fact v)
handle_all-coherent b (command_event kind id at ∷ es) v =
    handle_all-coherent (after b (apply_lifecycle_command b kind id at)) es
      (elim (Result-cases (apply_lifecycle_command b kind id at)) [
        | inl (c, e) ↦ rw e (command-coherent b c kind id at v e).0
        | inr (x, e) ↦ rw e v
      ])
