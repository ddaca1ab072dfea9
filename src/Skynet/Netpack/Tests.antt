-- ===== src/Skynet/Netpack/Tests.antt =====
-- Runs of the packet filter on concrete chunks.
use game_server_development.Prelude.{
  ℕ, ◌≡◌, refl, List, [], ◌∷◌, some, arith, length, Bool, true, false, ltb, ◌==◌, if◌then◌else◌,
  if_true, if_false, Bool-cases, inl, inr, sym, ◌∙◌,
}
use game_server_development.Skynet.Netpack.{Queue, Netpack, new_queue, lpack}
use game_server_development.Skynet.Netpack.Packets.{taken, AreBytes}
use game_server_development.Skynet.Netpack.Messages.{
  close_message, error_message, type_close, type_error, lfilter, Ended, lfilter_end,
}
use game_server_development.Skynet.Netpack.Serve.{serve}
use game_server_development.Skynet.Netpack.Delivery.{
  sent, got, packs, AreChunks, new_queue-IsReady, serve-packs,
}

-- Three messages for descriptor 5, one of them empty, cut inside a header and inside a message, with
-- chunks of descriptor 4101, whose chain is the same, between them.
abbrev messages : List (List ℕ)
messages = (1 ∷ 2 ∷ 3 ∷ []) ∷ [] ∷ (9 ∷ []) ∷ []

abbrev chunks : List (ℕ × List ℕ)
chunks =
    (5, 0 ∷ [])
    ∷ (4101, 0 ∷ 2 ∷ 8 ∷ [])
    ∷ (5, 3 ∷ 1 ∷ [])
    ∷ (5, 2 ∷ 3 ∷ 0 ∷ 0 ∷ 0 ∷ [])
    ∷ (4101, 8 ∷ 0 ∷ [])
    ∷ (5, 1 ∷ 9 ∷ [])
    ∷ []

-- Descriptor 4101 is closed.
abbrev only_five : ℕ → Bool
only_five fd = fd == 5

-- The conditions on chunks as tests.
abbrev all_bytes : List ℕ → Bool
all_bytes [] = true
all_bytes (b ∷ bytes) = if ltb b 256 then all_bytes bytes else false

abbrev all_chunks : List (ℕ × List ℕ) → Bool
all_chunks [] = true
all_chunks ((fd, bytes) ∷ chunks) =
    if ltb 0 (length bytes) then (if all_bytes bytes then all_chunks chunks else false) else false

all_bytes-AreBytes : (bytes : List ℕ) → all_bytes bytes ≡ true → AreBytes bytes
all_bytes-AreBytes [] e = tt
all_bytes-AreBytes (b ∷ bytes) e = elim (Bool-cases (ltb b 256)) [
  | inl h ↦ (ground (arith, h), all_bytes-AreBytes bytes (sym (if_true _ _ h) ∙ e))
  | inr h ↦ let k = sym (if_false _ _ h) ∙ e in absurd (cc k)
]

all_chunks-AreChunks : (cs : List (ℕ × List ℕ)) → all_chunks cs ≡ true → AreChunks cs
all_chunks-AreChunks [] e = tt
all_chunks-AreChunks ((fd, bytes) ∷ cs) e = elim (Bool-cases (ltb 0 (length bytes))) [
  | inr h ↦ let k = sym (if_false _ _ h) ∙ e in absurd (cc k)
  | inl h ↦ elim (Bool-cases (all_bytes bytes)) [
    | inr g ↦ let k = sym (if_true _ _ h ∙ if_false _ _ g) ∙ e in absurd (cc k)
    | inl g ↦ (
      ground (arith, h),
      all_bytes-AreBytes bytes g,
      all_chunks-AreChunks cs (sym (if_true _ _ h ∙ if_true _ _ g) ∙ e),
    )
  ]
]

messages-packed : packs messages ≡ some (sent 5 chunks)
unfolding packs lpack
messages-packed = refl

serve-packs_example :
    (out : List Netpack) × (r : Queue) × (serve only_five new_queue chunks ≡ some (out, r))
    × (got 5 out ≡ messages)
    × (taken r 5 ≡ [])
    × ((f : ℕ) → only_five f ≡ false → got f out ≡ [])
serve-packs_example =
    serve-packs only_five chunks 5 messages (all_chunks-AreChunks chunks refl) messages-packed refl

lfilter_end_example :
    (r : Queue) × (lfilter (some new_queue) (close_message 5) ≡ some (type_close 5, some r))
    × (lfilter (some new_queue) (error_message 5 []) ≡ some (type_error 5 [], some r))
    × Ended new_queue 5 r
lfilter_end_example = lfilter_end new_queue 5 [] (new_queue-IsReady.0)
