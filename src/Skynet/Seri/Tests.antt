-- ===== src/Skynet/Seri/Tests.antt =====
-- A run of packing and unpacking values.
use game_server_development.Prelude.{
  ℕ, zero, suc, ◌≡◌, refl, ◌∙◌, List, [], ◌∷◌, true, ◌&&◌, leb, if◌then◌else◌, none, some, arith,
  replicate,
}
use game_server_development.Skynet.Seri.{WriteBlock, wb_init, push_all, seri}
use game_server_development.Skynet.Seri.Scalars.{wb_scalar, nil, boolean, integer, real, string}
use game_server_development.Skynet.Seri.Values.{
  array_head, Value, scalar, table, Values, end, item, no_pair, pair, max_depth, pack_from,
  luaseri_unpack,
}
use game_server_development.Skynet.Seri.Values.Layout.{
  layout, layout_array, nesting, nesting_array, supported, supported_array, rebuilt_array, IsValue,
  AreValues,
}
use game_server_development.Skynet.Seri.Values.Refusing.{pack_from_lem}
use game_server_development.Skynet.Seri.Values.Unpacking.{unpack-pack_from}

-- { 7, { name = "A" } } with its second element under its key as well, as `lua_next` gives it.
abbrev inner : Value
inner = table end (pair (scalar (string (110 ∷ []))) (scalar (string (65 ∷ []))) no_pair)

abbrev outer : Value
outer = table (item (scalar (integer 7)) (item inner end)) (
    pair (scalar (integer 1)) (scalar (integer 7)) (
      pair (scalar (integer 2)) inner
        (pair (scalar (integer 0xffffffffffffffff)) (scalar nil) no_pair)))

-- Integers of every width, the least integer, a string over several blocks, and the tables.
abbrev values : Values
values = item (scalar (boolean true)) (
    item (scalar (integer 255)) (
      item (scalar (integer 70000)) (
        item (scalar (integer 0x8000000000000000)) (
          item (scalar (real (replicate 8 7)))
            (item (scalar (string (replicate 300 65))) (item outer end))))))

inner-IsValue : IsValue inner
inner-IsValue = (omega arith, tt, (refl, omega arith, omega arith, tt))

outer-IsValue : IsValue outer
outer-IsValue = (
  omega arith,
  (omega arith, (inner-IsValue, tt)),
  (refl, omega arith, omega arith, (refl, omega arith, inner-IsValue, (refl, omega arith, tt, tt))),
)

values-AreValues : AreValues values
values-AreValues =
    (tt, (omega arith, (omega arith, (omega arith, (refl, (omega arith, (outer-IsValue, tt)))))))

values-supported : supported_array values ≡ true
unfolding supported
values-supported = refl

unpack-pack_from_example :
    (pieces : List (List ℕ)) × (w : WriteBlock) × (bytes : List ℕ) × (pack_from values
      ≡ some pieces)
    × (push_all wb_init pieces ≡ some w)
    × (seri w ≡ some bytes)
    × (luaseri_unpack bytes ≡ some (rebuilt_array values))
unpack-pack_from_example =
    unpack-pack_from values values-AreValues values-supported (unfold nesting in omega arith)
      (unfold layout array_head wb_scalar in omega arith)

-- A value in so many tables, each the only element of the next.
abbrev nested : ℕ → Value
nested zero = scalar nil
nested (suc n) = table (item (nested n) end) no_pair

nested_deep : pack_from (item (nested 33) end) ≡ none
nested_deep = pack_from_lem (item (nested 33) end) ∙ (unfold supported nesting in refl)

pack_from_lem_example : pack_from (item (nested 33) end) ≡ (
    if supported_array (item (nested 33) end)
      && leb (nesting_array (item (nested 33) end)) (suc max_depth)
    then some (layout_array (item (nested 33) end))
    else none)
pack_from_lem_example = pack_from_lem (item (nested 33) end)
