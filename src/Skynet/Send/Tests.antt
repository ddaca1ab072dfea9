-- ===== src/Skynet/Send/Tests.antt =====
-- Runs of `skynet_send` on concrete inputs.
use game_server_development.Prelude.{
  ℕ, suc, ◌+◌, ◌^◌, ◌<◌, ◌≡◌, ◌≢◌, refl, arith, [], ◌∷◌, Bool, true, false, some,
}
use game_server_development.Skynet.Send.{
  Outcome, fails, nowhere, newsession, pack, unpack, isremote, harbor_init, id_to_hex, hex_digits,
  hex_digit, send, send_args, filter_args,
}
use game_server_development.Skynet.Send.Sessions.{sessions, sessions_distinct}
use game_server_development.Skynet.Send.Packing.{unpack-pack}
use game_server_development.Skynet.Send.Ownership.{Accounts, send-Accounts}

-- The session after the largest `int` is 1.
newsession_wraps : (newsession 2147483647 ≡ 1) × (newsession 5 ≡ 6)
unfolding newsession
newsession_wraps = (refl, refl)

sessions_distinct_example :
    (0 < sessions 2147483640 (suc 5))
    × (sessions 2147483640 (suc 5) < 2 ^ 31)
    × (sessions 2147483640 (suc (5 + 10)) ≢ sessions 2147483640 (suc 5))
sessions_distinct_example =
    sessions_distinct 2147483640 5 10 (omega arith) (omega arith) (omega arith)

unpack-pack_example : unpack (pack 300 0x20007) ≡ (7, 300)
unpack-pack_example = unpack-pack 300 0x20007 (omega arith)

id_to_hex_run : id_to_hex 0x1f ≡ 58 ∷ 48 ∷ 48 ∷ 48 ∷ 48 ∷ 48 ∷ 48 ∷ 49 ∷ 70 ∷ []
unfolding id_to_hex hex_digits hex_digit
id_to_hex_run = refl

-- A handle that is not there: the copy at 77 of the data at 9 is freed.
abbrev missing : ℕ → Bool
missing h = false

abbrev copy : ℕ → ℕ
copy p = 77

send_fails :
    send true missing copy (harbor_init 1) 0x1000001 4 0 0x1000009 0x20000 0 9 3
    ≡ some (record { reply = fails; last_session = 5; sent = nowhere; freed = 77 ∷ [] })
unfolding send send_args filter_args newsession pack isremote harbor_init
send_fails = refl

send-Accounts_example :
    (o : Outcome) × (send true missing copy (harbor_init 1) 0x1000001 4 0 0x1000009 0x20000 0 9 3
      ≡ some o)
    × Accounts 77 o
send-Accounts_example =
    send-Accounts true missing copy (harbor_init 1) 0x1000001 4 0 0x1000009 0x20000 0 9 3
      (λ n. refl) (λ r. refl)
