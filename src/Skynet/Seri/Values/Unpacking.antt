-- ===== src/Skynet/Seri/Values/Unpacking.antt =====
-- From `luaseri_pack` over the blocks to `luaseri_unpack`.
use game_server_development.Prelude.{
  ℕ, zero, suc, ◌^◌, ◌≤◌, ◌<◌, ◌≡◌, refl, ap, ap₂, ◌∙◌, List, [], ◌∷◌, ◌++◌, true, ◌&&◌, leb,
  if_true, if_false, some, ◌>>=◌, arith, length,
}
use game_server_development.Skynet.Seri.{WriteBlock, wb_init, push_all, seri}
use game_server_development.Skynet.Seri.Blocks.{concat, seri-push_all}
use game_server_development.Skynet.Seri.Scalars.RoundTrip.{concat-pieces}
use game_server_development.Skynet.Seri.Values.{
  Value, Values, end, item, max_depth, pack_from, unpack_one, unpack_loop, luaseri_unpack,
}
use game_server_development.Skynet.Seri.Values.Layout.{
  layout, layout_array, nesting_array, supported, supported_array, rebuilt, rebuilt_array,
  AreValues,
}
use game_server_development.Skynet.Seri.Values.Packing.{and_left, and_right}
use game_server_development.Skynet.Seri.Values.Refusing.{pack_from_lem}
use game_server_development.Skynet.Seri.Values.RoundTrip.{
  bytes_of, bytes_of-append, layout_some, unpack_one-layout,
}

-- One round of the loop.
loop_step :
    (fuel : ℕ) (v : Value) (vs : Values) (bytes rest : List ℕ)
    → unpack_one (suc fuel) bytes ≡ some (v, rest)
    → unpack_loop fuel rest ≡ some vs
    → unpack_loop (suc fuel) bytes ≡ some (item v vs)
unfolding unpack_loop unpack_one
loop_step fuel v vs [] rest e f = absurd (cc e)
loop_step fuel v vs (tag ∷ bytes) rest e f =
    ap (λ o. o >>= λ r. unpack_loop fuel r.1 >>= λ vs. some (item r.0 vs)) e
    ∙ ap (λ o. o >>= λ vs. some (item v vs)) f

unpack_loop-layout :
    (vs : Values) (fuel : ℕ)
    → AreValues vs
    → supported_array vs ≡ true
    → bytes_of (layout_array vs) < fuel
    → unpack_loop fuel (concat (layout_array vs)) ≡ some (rebuilt_array vs)
unfolding unpack_loop layout supported rebuilt
unpack_loop-layout vs zero h s enough = absurd (omega (arith, enough))
unpack_loop-layout end (suc fuel) h s enough = refl
unpack_loop-layout (item v vs) (suc fuel) h s enough =
    let behind = concat (layout_array vs) in
    let n = bytes_of-append (layout v) (layout_array vs) in
    let sv = and_left (supported v) (supported_array vs) s in
    loop_step fuel (rebuilt v) (rebuilt_array vs) (concat (layout v ++ layout_array vs)) behind
      (ap (unpack_one (suc fuel)) (concat-pieces (layout v) (layout_array vs))
        ∙ unpack_one-layout v (suc fuel) behind h.0 sv (omega (arith, n, enough)))
      (unpack_loop-layout vs fuel h.1 (and_right (supported v) (supported_array vs) s)
        (omega (arith, n, enough, layout_some v h.0 sv)))

-- Values with a serial form, of the sizes that Lua and C can hold, in 32 tables at most and with fewer
-- than 2^31 bytes in all, come back
-- from `luaseri_unpack` as they went into `luaseri_pack`, over all the blocks that were needed: packing
-- and every push succeed, and the bytes of `seri` are read to their end. A table comes back as its
-- elements and the pairs that stand for none of them.
pub unpack-pack_from :
    (vs : Values)
    → AreValues vs
    → supported_array vs ≡ true
    → nesting_array vs ≤ suc max_depth
    → length (concat (layout_array vs)) < 2 ^ 31
    → (pieces : List (List ℕ)) × (w : WriteBlock) × (bytes : List ℕ) × (pack_from vs ≡ some pieces)
      × (push_all wb_init pieces ≡ some w)
      × (seri w ≡ some bytes)
      × (luaseri_unpack bytes ≡ some (rebuilt_array vs))
unfolding luaseri_unpack
unpack-pack_from vs h s d small =
    let pieces = layout_array vs in
    let (w, e, f) = seri-push_all pieces small in
    let shallow : leb (nesting_array vs) (suc max_depth) ≡ true = ground (arith, d) in
    (
      pieces,
      w,
      concat pieces,
      pack_from_lem vs ∙ if_true _ _ (ap₂ ◌&&◌ s shallow),
      e,
      f,
      if_false {b = leb (2 ^ 31) (length (concat pieces))} _ _ (ground (arith, small))
          ∙ unpack_loop-layout vs (suc (length (concat pieces))) h s (omega arith),
    )
