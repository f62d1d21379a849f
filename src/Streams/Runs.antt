-- ===== src/Streams/Runs.antt =====
-- mtglib/proxy.go: concrete streams.
use mtg_multi.Prelude.{
  ℕ, ◌+◌, ◌%◌, ◌<◌, refl, true, false, some, none, List, [], ◌∷◌, ◌==◌, replicate, arith, map,
  Option, ◌≡◌,
}
use mtg_multi.Prelude.Bytes.{Bytes}
use mtg_multi.Prelude.Ints.{negsuc}
use mtg_multi.Prelude.Map.{lookup}
use mtg_multi.Admission.PendingHandshakes.{count, u32_mod}
use mtg_multi.Stats.{or_fresh}
use mtg_multi.Stats.Counters.{reads, writes}
use mtg_multi.Secrets.{Secret, no_limits}
use mtg_multi.Secrets.Swap.{conns_or_empty}
use mtg_multi.Fake.Hello.{read_client_hello_multi}
use mtg_multi.Streams.{Addr, Settings, Answers, World, do_fake_tls_handshake}
use mtg_multi.Streams.Kept.{Kept, IsReady}
use mtg_multi.Streams.Serve.{serve_conn}
use mtg_multi.Streams.Serve.Restores.{serve_conn-restores}
use mtg_multi.Streams.Addresses.{
  AddrSet, prefer_ipv6, run_updates, get_addresses, built_in, get_addresses-run_updates,
}
use mtg_multi.Streams.Authentic.{IsChecked, do_fake_tls_handshake-IsChecked}
use mtg_multi.Streams.Telegram.{do_telegram_call}
use mtg_multi.Streams.Telegram.Dials.{IsCall, do_telegram_call-IsCall}

abbrev host : Bytes
host = 104 ∷ []

abbrev secret_of : ℕ → Secret
secret_of b = record { key = replicate 16 b; host = host }

abbrev settings : Settings
settings = record {
  pending_handshakes_per_ip = 4;
  pending_handshakes_dry_run = false;
  domain_fronting_host = [];
  allow_fallback_on_unknown_dc = true;
  middle_proxy = false;
}

-- A client hello for the host, and one GREASE suite and one suite.
abbrev hello : Bytes
hello =
    22 ∷ 3 ∷ 1 ∷ 0 ∷ 59 ∷ 1 ∷ 0 ∷ 0 ∷ 55 ∷ 3 ∷ 3 ∷ 0 ∷ 0 ∷ 0 ∷ 0 ∷ 0 ∷ 0 ∷ 0 ∷ 0 ∷ 0 ∷ 0 ∷ 0 ∷ 0 ∷ 0
    ∷ 0 ∷ 0 ∷ 0 ∷ 0 ∷ 0 ∷ 0 ∷ 0 ∷ 0 ∷ 0 ∷ 0 ∷ 0 ∷ 0 ∷ 0 ∷ 0 ∷ 0 ∷ 0 ∷ 0 ∷ 0 ∷ 0 ∷ 0 ∷ 0 ∷ 4 ∷ 10
    ∷ 10 ∷ 19 ∷ 1 ∷ 1 ∷ 0 ∷ 0 ∷ 10 ∷ 0 ∷ 0 ∷ 0 ∷ 6 ∷ 0 ∷ 4 ∷ 0 ∷ 0 ∷ 1 ∷ 104 ∷ []

abbrev answers : Answers
answers = record {
  client_ip = 10 ∷ 0 ∷ 0 ∷ 1 ∷ [];
  deadline_set = true;
  input = hello;
  seen_before = false;
  server_hello_sent = true;
  fronting_dials = true;
  doppelganger = true;
  inner = replicate 64 0;
  deadline_cleared = true;
  middle = none;
  dials = λ x. true;
  handshake_sent = true;
  split_host_port = λ b. some b;
  moves = reads 5 ∷ writes 7 ∷ [];
}

abbrev world : World
world = record {
  pending = [];
  proxy = record {
    secrets = record {
      secrets = secret_of 1 ∷ secret_of 2 ∷ [];
      names = (97 ∷ []) ∷ (98 ∷ []) ∷ [];
      hostnames = host ∷ [];
      ad_tags = none ∷ none ∷ [];
      global_ad_tag = none;
      limits = no_limits ∷ no_limits ∷ [];
    };
    live_conns = [];
    stats = record {
      users = [];
      started_at = 1;
      throttle_caps = [];
      throttle_limit = 0;
      throttle_active = false;
    };
  };
  events = [];
}

-- A stand-in for the digest: all zeros for the key that starts with 2.
abbrev first_byte : Bytes → Bytes → Bytes
first_byte [] b = replicate 32 0
first_byte (k ∷ ks) b = replicate 32 ((k + 254) % 256)

abbrev same_bytes : Bytes → Bytes
same_bytes b = b

-- A key stream that makes the connection type of the frame above.
abbrev steady : Bytes → Bytes → ℕ → ℕ
steady k v n = 0xdd

abbrev two_addresses : ℕ → List Addr
two_addresses n =
    record { network = []; address = 1 ∷ [] } ∷ record { network = []; address = 2 ∷ [] } ∷ []

world-IsReady : IsReady 7 world
unfolding lookup or_fresh conns_or_empty
world-IsReady = ((λ j. omega arith), (λ j. refl))

world_free : (addr : Bytes) → count world.pending addr + 1 < u32_mod
unfolding count lookup
world_free addr = omega arith

serve_conn-restores_example : Kept world (
    serve_conn ◌==◌
      (λ x. x)
      0
      first_byte
      0
      same_bytes
      steady
      two_addresses
      settings
      answers
      7
      world)
serve_conn-restores_example =
    serve_conn-restores ◌==◌ (λ x. x) 0 first_byte 0 same_bytes steady two_addresses settings
      answers 7 world world-IsReady world_free

do_fake_tls_handshake-IsChecked_example :
    IsChecked ◌==◌
      (λ x. x)
      0
      first_byte
      0
      settings
      answers
      world
      (read_client_hello_multi first_byte 0 0
        (map (λ (k : Secret). k.key) world.proxy.secrets.secrets)
        (host ∷ [])
        hello)
      (do_fake_tls_handshake ◌==◌ (λ x. x) 0 first_byte 0 settings answers world none).2
do_fake_tls_handshake-IsChecked_example =
    do_fake_tls_handshake-IsChecked ◌==◌ (λ x. x) 0 first_byte 0 settings answers world none

do_telegram_call-IsCall_example :
    IsCall two_addresses settings answers
      (negsuc 1)
      none
      (do_telegram_call two_addresses settings answers world (negsuc 1) none).1
do_telegram_call-IsCall_example =
    do_telegram_call-IsCall two_addresses settings answers world (negsuc 1) none

abbrev first_two : Bytes → Option (Bytes × Bytes)
first_two (dc ∷ address) = some (dc ∷ [], address)
first_two [] = none

abbrev first_number : Bytes → Option ℕ
first_number (n ∷ b) = some n
first_number [] = none

abbrev defaults : AddrSet
defaults = record { v4 = (2, two_addresses 2) ∷ []; v6 = [] }

get_addresses-run_updates_example :
    get_addresses defaults
      (λ xs. xs)
      (run_updates first_two first_number
        ((true, (116 ∷ [], (203 ∷ 5 ∷ []) ∷ (2 ∷ 6 ∷ []) ∷ [])) ∷ [])
        record { prefer_ip = prefer_ipv6; public_configs = record { v4 = []; v6 = [] } })
      2
    ≡ built_in defaults (λ xs. xs) prefer_ipv6 2
get_addresses-run_updates_example =
    get_addresses-run_updates defaults (λ xs. xs) first_two first_number
      ((true, (116 ∷ [], (203 ∷ 5 ∷ []) ∷ (2 ∷ 6 ∷ []) ∷ [])) ∷ []) prefer_ipv6 2 refl
      (λ e. omega (arith, e))
