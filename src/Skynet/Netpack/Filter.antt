-- ===== src/Skynet/Netpack/Filter.antt =====
-- The filter takes every chunk apart as the stream of packets that it continues.
use game_server_development.Prelude.{
  ℕ, ◌-◌, ◌<◌, ◌≡◌, refl, sym, ap, ◌∙◌, subst, List, [], ◌∷◌, ◌++◌, Bool, true, false, ltb, ◌==◌,
  if_true, if_false, Option, none, some, arith, length, drop, length-drop, Bool-cases, Option-cases,
  inl, inr,
}
use game_server_development.Skynet.Netpack.{
  netpack, Uncomplete, Queue, first_byte, save_uncomplete, read_size, Answer, nothing, data_of,
  fill, filter_fresh, resume, filter_data, hash_fd, find_uncomplete,
}
use game_server_development.Skynet.Netpack.Chains.{search_in-id, find_uncomplete_lem, waits}
use game_server_development.Skynet.Netpack.Packets.{taken_of, taken_in, taken, Partial, AreBytes}
use game_server_development.Skynet.Netpack.Steps.{
  IsQueue, Fed, Free, saved-Fed, found-Free, found-Fed, read_size-bytes,
}
use game_server_development.Skynet.Netpack.Fill.{take_all, entry, part, fill-Fed}

-- A fresh packet whose size is there is filled from nothing.
filter_fresh-fill :
    (q : Queue) (fd a b : ℕ) (bytes : List ℕ)
    → filter_fresh q fd (a ∷ b ∷ bytes) ≡ fill q (part fd 0 (read_size a b) []) fd bytes
unfolding filter_fresh fill
filter_fresh-fill q fd a b bytes =
    let n = read_size a b in
    let z : n - 0 ≡ n = omega arith in
    rw z (elim (Bool-cases (ltb (length bytes) n)) [
      | inl short ↦ if_true _ _ short ∙ sym (if_true _ _ short)
      | inr whole ↦
          if_false _ _ whole
          ∙ (elim (Bool-cases (length bytes == n)) [
            | inl same ↦
                if_true _ _ same
                ∙ ap (λ t. some (data_of (netpack fd t), q))
                    (sym (take_all n bytes (ground (arith, same))))
                ∙ sym (
                    if_true {b = length (drop n bytes) == 0} _ _
                      (ground (arith, same, length-drop n bytes)))
            | inr longer ↦
                if_false _ _ longer
                ∙ sym (
                    if_false {b = length (drop n bytes) == 0} _ _
                      (ground (arith, whole, longer, length-drop n bytes)))
          ])
          ∙ sym (if_false _ _ whole)
    ])

-- What `filter_data_` does where nothing waits, and where something does.
filter_fresh-Fed :
    (q : Queue) (fd : ℕ) (bytes : List ℕ)
    → 0 < length bytes
    → AreBytes bytes
    → Free q fd
    → (r : Answer × Queue) × (filter_fresh q fd bytes ≡ some r) × Fed q fd bytes r
unfolding filter_fresh
filter_fresh-Fed q fd [] some_bytes are f = absurd (omega (arith, some_bytes))
filter_fresh-Fed q fd (a ∷ []) some_bytes are f = (
  (nothing, save_uncomplete q (first_byte fd a)),
  refl,
  saved-Fed q (first_byte fd a) nothing f tt refl,
)
filter_fresh-Fed q fd (a ∷ b ∷ bytes) some_bytes are f =
    let (r, e, fed) = fill-Fed q fd 0 (read_size a b) [] bytes (omega arith) (are.1).1 f in
    (
      r,
      filter_fresh-fill q fd a b bytes ∙ e,
      subst (λ t. Fed q fd t r) (read_size-bytes a b bytes (are.1).0) fed,
    )

resume-Fed :
    (q : Queue) (fd header n : ℕ) (xs : List ℕ) (started : Bool) (bytes : List ℕ)
    → Partial (taken_of (entry fd header n xs started))
    → 0 < length bytes
    → AreBytes bytes
    → Free q fd
    → (r : Answer × Queue) × (resume q (entry fd header n xs started) fd bytes ≡ some r)
      × Fed q fd (taken_of (entry fd header n xs started) ++ bytes) r
unfolding resume
resume-Fed q fd header n xs started [] p some_bytes are f = absurd (omega (arith, some_bytes))
resume-Fed q fd header n xs true (b ∷ bytes) p some_bytes are f =
    fill-Fed q fd header n xs (b ∷ bytes) (omega (arith, p)) are f
resume-Fed q fd header n xs false (b ∷ bytes) p some_bytes are f =
    let m = read_size header b in
    let (r, e, fed) = fill-Fed q fd header m [] bytes (omega arith) are.1 f in
    (r, e, subst (λ t. Fed q fd t r) (read_size-bytes header b bytes are.0) fed)

-- What `filter_data_` does with what it found.
abbrev dispatch : Queue → ℕ → List ℕ → Option Uncomplete → Option (Answer × Queue)
dispatch q fd bytes none = filter_fresh q fd bytes
dispatch q fd bytes (some uc) = resume q uc fd bytes

-- Whatever waits for the descriptor, the filter goes on with the stream that begins with it.
pub filter_data-Fed :
    (q : Queue) (fd : ℕ) (bytes : List ℕ)
    → 0 < length bytes
    → AreBytes bytes
    → IsQueue q
    → (r : Answer × Queue) × (filter_data (some q) fd bytes ≡ some r)
      × Fed q fd (taken q fd ++ bytes) r
unfolding filter_data
filter_data-Fed q fd bytes some_bytes are v =
    let (found, t, none_left, same, gone) = find_uncomplete_lem q fd v.table in
    let q' = (find_uncomplete q fd).1 in
    let free = found-Free q fd v in
    elim (Option-cases (waits q fd)) [
      | inl e ↦
          let (r, d, fed) = filter_fresh-Fed q' fd bytes some_bytes are free in
          (
            r,
            ap (dispatch q' fd bytes) (found ∙ e) ∙ d,
            subst (λ w. Fed q fd (taken_in w ++ bytes) r) (sym e) (found-Fed q fd bytes r v fed),
          )
      | inr (uc, e) ↦
          let i = search_in-id (q.hash (hash_fd fd)) fd uc e in
          let u : uc ≡ entry fd uc.header uc.size uc.buffer uc.started =
            ap (λ k. record uc { id = k }) i in
          let p = subst Partial (ap taken_in e ∙ ap taken_of u) (v.parts fd) in
          let (r, d, fed) =
            resume-Fed q' fd uc.header uc.size uc.buffer uc.started bytes p some_bytes are free in
          (
            r,
            ap (dispatch q' fd bytes) (found ∙ e ∙ ap some u) ∙ d,
            subst (λ t. Fed q fd (t ++ bytes) r) (sym (ap taken_in e ∙ ap taken_of u))
                (found-Fed q fd _ r v fed),
          )
    ]
