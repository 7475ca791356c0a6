-- ===== src/Ingestion/Links/Review.antt =====
-- The table of links under review: one link for each real player.
use fifa_world_cup_ai_agent.Prelude.{
  ℕ, ◌≡◌, ◌≢◌, sym, subst, ◌∙◌, ap, Bool, true, false, not, ◌&&◌, Bool-cases, Option-cases, ==_iff,
  Option, some, List, [], ◌∷◌, All, ◌>>=◌, Result-cases, ◌⊎◌, inl, inr, arith, ◌==◌, if◌then◌else◌,
}
use fifa_world_cup_ai_agent.Ingestion.Links.{
  Link, LinkReviewStatus, approved, rejected, find, store, update_status, is_taken, reassigned,
  reassign, require_pending, approve, reject, Act, approval, rejection, reassignment, act,
  table_after, acts,
}

-- No two links have the same id or the same real player.
abbrev pub IsUnique : List Link → Type 0
IsUnique [] = Unit
IsUnique (l ∷ ls) =
    All (λ (m : Link). (l.id ≢ m.id) × (l.real_player_id ≢ m.real_player_id)) ls × IsUnique ls

-- Every link but the one with the id of `new` has another real player than `new`.
abbrev Free : Link → List Link → Type 0
Free new ls = All (λ (m : Link). (m.id ≡ new.id) ⊎ (m.real_player_id ≢ new.real_player_id)) ls

store-All :
    (P : Link → Type 0) (new : Link) (ls : List Link) → P new → All P ls → All P (store new ls)
unfolding store
store-All P new [] p h = tt
store-All P new (l ∷ ls) p h =
    let rest = store-All P new ls p h.1 in
    elim (Bool-cases (l.id == new.id)) [ inl e ↦ rw e (p, h.1) | inr e ↦ rw e (h.0, rest) ]

apart :
    (l new m : Link)
    → l.id ≡ new.id
    → (l.id ≢ m.id) × (l.real_player_id ≢ m.real_player_id)
    → (m.id ≡ new.id) ⊎ (m.real_player_id ≢ new.real_player_id)
    → (new.id ≢ m.id) × (new.real_player_id ≢ m.real_player_id)
apart l new m e (p, q) (inl s) = absurd (p (e ∙ sym s))
apart l new m e (p, q) (inr s) = (λ t. p (e ∙ t), λ t. s (sym t))

All-apart :
    (l new : Link) (ls : List Link)
    → l.id ≡ new.id
    → All (λ (m : Link). (l.id ≢ m.id) × (l.real_player_id ≢ m.real_player_id)) ls
    → Free new ls
    → All (λ (m : Link). (new.id ≢ m.id) × (new.real_player_id ≢ m.real_player_id)) ls
All-apart l new [] e h f = tt
All-apart l new (m ∷ ms) e h f = (apart l new m e h.0 f.0, All-apart l new ms e h.1 f.1)

store-IsUnique : (new : Link) (ls : List Link) → Free new ls → IsUnique ls → IsUnique (store new ls)
unfolding store
store-IsUnique new [] f h = tt
store-IsUnique new (l ∷ ls) f h =
    let rest = store-IsUnique new ls f.1 h.1 in
    elim (Bool-cases (l.id == new.id)) [
      | inl e ↦ rw e (All-apart l new ls ((==_iff l.id new.id).0 e) h.0 f.1, h.1)
      | inr e ↦ rw e (
        store-All (λ (m : Link). (l.id ≢ m.id) × (l.real_player_id ≢ m.real_player_id)) new ls
            (ground (arith, e), differ (ground (arith, e)) f.0) h.0,
        rest,
      )
    ]
  where
    differ :
        l.id ≢ new.id
        → (l.id ≡ new.id) ⊎ (l.real_player_id ≢ new.real_player_id)
        → l.real_player_id ≢ new.real_player_id
    differ n (inl e) = absurd (n e)
    differ n (inr d) = d

find-All :
    (P : Link → Type 0) (id : ℕ) (ls : List Link) (l : Link) → All P ls → find id ls ≡ some l → P l
unfolding find
find-All P id [] l h e = cc
find-All P id (x ∷ xs) l h e = elim (Bool-cases (x.id == id)) [
  | inl b ↦ let p : x ≡ l = ground (arith, b, e) in subst P p h.0
  | inr b ↦ find-All P id xs l h.1 (ground (arith, b, e))
]

pub find-id : (id : ℕ) (ls : List Link) (l : Link) → find id ls ≡ some l → l.id ≡ id
unfolding find
find-id id [] l e = cc
find-id id (x ∷ xs) l e = elim (Bool-cases (x.id == id)) [
  | inl b ↦ let p : x ≡ l = ground (arith, b, e) in ap (λ m. m.id) (sym p) ∙ (==_iff x.id id).0 b
  | inr b ↦ find-id id xs l (ground (arith, b, e))
]

-- A link of the table is free in it.
find-Free : (id : ℕ) (ls : List Link) (l : Link) → IsUnique ls → find id ls ≡ some l → Free l ls
unfolding find
find-Free id [] l h e = tt
find-Free id (x ∷ xs) l h e = elim (Bool-cases (x.id == id)) [
  | inl b ↦
      let p : x ≡ l = ground (arith, b, e) in
      (inl (ap (λ m. m.id) p), subst (λ m. Free m xs) p (others x xs h.0))
  | inr b ↦
      let e2 : find id xs ≡ some l = ground (arith, b, e) in
      (
        inr
            (find-All (λ (m : Link). (x.id ≢ m.id) × (x.real_player_id ≢ m.real_player_id)) id xs l
              h.0 e2).1,
        find-Free id xs l h.1 e2,
      )
]
  where
    others :
        (y : Link) (ms : List Link)
        → All (λ (m : Link). (y.id ≢ m.id) × (y.real_player_id ≢ m.real_player_id)) ms
        → Free y ms
    others y [] k = tt
    others y (m ∷ ms) k = (inr (λ t. k.0.1 (sym t)), others y ms k.1)

not_taken-Free :
    (new : Link) (ls : List Link) → is_taken new.real_player_id new.id ls ≡ false → Free new ls
not_taken-Free new [] h = tt
not_taken-Free new (m ∷ ms) h =
    elim (Bool-cases (m.real_player_id == new.real_player_id && not (m.id == new.id))) [
      | inl b ↦ cc (h, ap (λ c. if c then true else is_taken new.real_player_id new.id ms) b)
      | inr b ↦ (
        one b,
        not_taken-Free new ms
            (sym (ap (λ c. if c then true else is_taken new.real_player_id new.id ms) b) ∙ h),
      )
    ]
  where
    one :
        (m.real_player_id == new.real_player_id && not (m.id == new.id)) ≡ false
        → (m.id ≡ new.id) ⊎ (m.real_player_id ≢ new.real_player_id)
    one b = elim (Bool-cases (m.id == new.id)) [
      | inl i ↦ inl ((==_iff m.id new.id).0 i)
      | inr i ↦ inr (ground (arith, b, i))
    ]

update_status-IsUnique :
    (id : ℕ) (status : LinkReviewStatus) (user : Option ℕ) (ls : List Link)
    → IsUnique ls
    → IsUnique (table_after ls (update_status id status user ls))
unfolding update_status
update_status-IsUnique id status user ls h = elim (Option-cases (find id ls)) [
  | inl e ↦ rw e h
  | inr (l, e) ↦ rw e (store-IsUnique _ ls (find-Free id ls l h e) h)
]

-- A decision is an update of the status or an error.
decided-IsUnique :
    (id : ℕ) (status : LinkReviewStatus) (admin : ℕ) (ls : List Link)
    → IsUnique ls
    → IsUnique
        (table_after ls (require_pending id ls >>= (λ _. update_status id status (some admin) ls)))
decided-IsUnique id status admin ls h = elim (Result-cases (require_pending id ls)) [
  | inl (l, e) ↦ rw e (update_status-IsUnique id status (some admin) ls h)
  | inr (x, e) ↦ rw e h
]

reassign-IsUnique :
    (exists : ℕ → Bool) (id real admin : ℕ) (ls : List Link)
    → IsUnique ls
    → IsUnique (table_after ls (reassign exists id real admin ls))
unfolding reassign
reassign-IsUnique exists id real admin ls h = elim (Option-cases (find id ls)) [
  | inl e ↦ rw e h
  | inr (l, e) ↦ elim (Bool-cases (exists real)) [
    | inl x ↦ elim (Bool-cases (is_taken real id ls)) [
      | inl t ↦ rw (e, x, t) h
      | inr t ↦
          rw (e, x, t)
            (store-IsUnique _ ls
              (not_taken-Free (reassigned real admin l) ls
                (subst (λ i. is_taken real i ls ≡ false) (sym (find-id id ls l e)) t))
              h)
    ]
    | inr x ↦ rw (e, x) h
  ]
]

act-IsUnique :
    (exists : ℕ → Bool) (a : Act) (ls : List Link)
    → IsUnique ls
    → IsUnique (table_after ls (act exists a ls))
unfolding act approve reject
act-IsUnique exists (approval id admin) ls h = decided-IsUnique id approved admin ls h
act-IsUnique exists (rejection id admin) ls h = decided-IsUnique id rejected admin ls h
act-IsUnique exists (reassignment id real admin) ls h = reassign-IsUnique exists id real admin ls h

-- From a table in which no two links share an id or a real player, no sequence of approvals,
-- rejections and reassignments leads to one in which two do.
pub acts-IsUnique :
    (exists : ℕ → Bool) (rest : List Act) (ls : List Link)
    → IsUnique ls
    → IsUnique (acts exists rest ls)
unfolding acts
acts-IsUnique exists [] ls h = h
acts-IsUnique exists (a ∷ rest) ls h = acts-IsUnique exists rest _ (act-IsUnique exists a ls h)
