-- ===== src/Skynet/Send/Ownership.antt =====
-- Who has the data of a message after `skynet_send`.
use game_server_development.Prelude.{
  if_true, if_false, ℕ, ◌≡◌, ◌≢◌, ◌⊎◌, inl, inr, refl, ap, subst, [], Bool, true, false, not, ◌&&◌,
  ◌==◌, if◌then◌else◌, Option, none, some, Bool-cases, bit_and, arith,
}
use game_server_development.Prelude.Bits.{bit_and_mask}
use game_server_development.Skynet.Send.Packing.{unpack-pack}
use game_server_development.Prelude.{sym, ◌∙◌, ◌/◌, ◌%◌, ◌^◌, ◌<◌, ==_iff}
use game_server_development.Skynet.Send.{
  Sent, nowhere, local, remote, Outcome, Args, free, harbor_sends, pack, unpack, message_type_shift,
  send_args, filter_args, send, isremote, tag_dontcopy, tag_allocsession, message_type_mask,
}

abbrev pub carried : Sent → Option ℕ
carried nowhere = none
carried (local d m) = some m.payload
carried (remote d m) = some m.payload

-- Pointer `p` was freed once, unless it is NULL, or it went with the message.
abbrev pub Accounts : ℕ → Outcome → Type 0
Accounts p o =
    ((carried o.sent ≡ none) × (o.freed ≡ free p)) ⊎ ((carried o.sent ≡ some p) × (o.freed ≡ []))

send_args-Accounts :
    (started : Bool) (exists : ℕ → Bool) (harbor source destination : ℕ) (a : Args)
    → (isremote harbor destination ≡ true
        → harbor_sends started (a.sz / 2 ^ message_type_shift) ≡ true)
    → (o : Outcome) × (send_args started exists harbor source destination a ≡ some o)
      × Accounts a.payload o
unfolding send_args
send_args-Accounts started exists harbor source destination a sends =
    elim (Bool-cases (destination == 0)) [
      | inl z ↦ elim (Bool-cases (a.payload == 0)) [
        | inl p ↦ (_, if_true _ _ z ∙ if_true _ _ p, inl (refl, sym (if_true _ _ p)))
        | inr p ↦ (_, if_true _ _ z ∙ if_false _ _ p, inl (refl, refl))
      ]
      | inr z ↦ elim (Bool-cases (isremote harbor destination)) [
        | inl r ↦ (_, if_false _ _ z ∙ (if_true _ _ r ∙ if_true _ _ (sends r)), inr (refl, refl))
        | inr r ↦ elim (Bool-cases (exists destination)) [
          | inl f ↦ (_, if_false _ _ z ∙ (if_false _ _ r ∙ if_true _ _ f), inr (refl, refl))
          | inr f ↦ (_, if_false _ _ z ∙ (if_false _ _ r ∙ if_false _ _ f), inl (refl, refl))
        ]
      ]
    ]

-- The pointer that `skynet_send` has to account for: the caller's with PTYPE_TAG_DONTCOPY, else the
-- copy, if one is made.
abbrev pub owned : (ℕ → ℕ) → ℕ → ℕ → ℕ → ℕ
owned copy type payload sz =
    if bit_and type tag_dontcopy == 0
    then (if bit_and sz message_type_mask == sz
        then (if payload == 0 then payload else copy payload)
        else 0)
    else payload

filter_args-payload :
    (copy : ℕ → ℕ) (session_id type session payload sz : ℕ)
    → (bit_and type tag_allocsession ≢ 0 → session ≡ 0)
    → (bit_and sz message_type_mask == sz) ≡ true
    → (a : Args) × (filter_args copy session_id type session payload sz ≡ some a)
      × (a.payload ≡ owned copy type payload sz)
      × (a.sz ≡ pack sz type)
unfolding filter_args
filter_args-payload copy session_id type session payload sz ok small =
    (_, if_false _ _ allowed, rw small copies, refl)
  where
    allowed : (not (bit_and type tag_allocsession == 0) && not (session == 0)) ≡ false
    allowed = ground (arith, ok)

    copies :
        (if (bit_and type tag_dontcopy == 0) && not (payload == 0) then copy payload else payload)
        ≡ (if bit_and type tag_dontcopy == 0
            then (if payload == 0 then payload else copy payload)
            else payload)
    copies = ground arith

-- The type that stands in the packed word.
packed_type :
    (sz type : ℕ)
    → (bit_and sz message_type_mask == sz) ≡ true
    → pack sz type / 2 ^ message_type_shift ≡ type % 256
unfolding unpack
packed_type sz type small =
    let fits : sz < 2 ^ 56 =
      omega (arith, bit_and_mask 56 sz, (==_iff (bit_and sz message_type_mask) sz).0 small) in
    ap (λ (p : ℕ × ℕ). p.0) (unpack-pack sz type fits)

-- If no session is given where PTYPE_TAG_ALLOCSESSION asks for a new one, and what goes to a remote
-- handle has a harbor service to go to and a type that this takes, `skynet_send` returns, and
-- the data that it owns is freed once, unless it is NULL, and goes nowhere, or it goes out with the
-- message and is not freed: the caller's data with PTYPE_TAG_DONTCOPY and the copy without, which is
-- not made for a message that is too large.
pub send-Accounts :
    (started : Bool) (exists : ℕ → Bool) (copy : ℕ → ℕ)
    (harbor handle session_id source destination type session payload sz : ℕ)
    → (bit_and type tag_allocsession ≢ 0 → session ≡ 0)
    → (isremote harbor destination ≡ true → harbor_sends started (type % 256) ≡ true)
    → (o : Outcome) × (send started exists copy harbor handle session_id source destination type
          session payload sz
        ≡ some o)
      × Accounts (owned copy type payload sz) o
unfolding send
send-Accounts started exists copy harbor handle session_id source destination type session payload
      sz ok sends =
    elim (Bool-cases (bit_and sz message_type_mask == sz)) [
      | inl small ↦
          let (a, e, p, z) = filter_args-payload copy session_id type session payload sz ok small in
          let from : ℕ = if source == 0 then handle else source in
          let t : type % 256 ≡ a.sz / 2 ^ message_type_shift =
            sym (packed_type sz type small) ∙ ap (λ k. k / 2 ^ message_type_shift) (sym z) in
          let (o, d, accounts) =
            send_args-Accounts started exists harbor from destination a
              (λ r. subst (λ k. harbor_sends started k ≡ true) t (sends r)) in
          (o, rw (small, e) d, subst (λ q. Accounts q o) p accounts)
      | inr large ↦ elim (Bool-cases (bit_and type tag_dontcopy == 0)) [
        | inl c ↦ (_, if_true _ _ (ap not large), rw (c, large) (inl (refl, refl)))
        | inr c ↦ (_, if_true _ _ (ap not large), rw c (inl (refl, refl)))
      ]
    ]
