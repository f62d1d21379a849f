-- ===== src/Middleproxy/Manager/Runs.antt =====
-- mtglib/internal/middleproxy/manager.go on concrete answers.
use mtg_multi.Prelude.{◌≡◌, refl, false, none, some, [], ◌∷◌, ◌++◌}
use mtg_multi.Prelude.Bytes.{Bytes, text}
use mtg_multi.Prelude.Map.{lookup, insert}
use mtg_multi.Prelude.Ints.{ℤ, pos, negsuc}
use mtg_multi.Prelude.Strings.{
  parse_int, split_host_port, trim_right, fields, trim_space, has_prefix, scan_lines, str_contains,
}
use mtg_multi.Middleproxy.Exchange.{Outside}
use mtg_multi.Middleproxy.Manager.Config.{Table, addrs_of, parse_middle_config, append_addr}
use mtg_multi.Middleproxy.Manager.Config.Lines.{
  Entry, IsEntry, config_text, addrs_for, parse_middle_config-config_text,
}
use mtg_multi.Middleproxy.Manager.{
  new_manager, answered, unreachable, Site, fetch, fetch_bytes, fetch_config, ensure_ready,
  ordered_addresses, family, tcp4, DialParams, Peer, dial_proxy_stream, stored,
}
use mtg_multi.Middleproxy.Manager.Refresh.{stream, ticked, run, IsHeld, IsAsked, run-IsHeld}
use mtg_multi.Middleproxy.Manager.Outcome.{IsDialled, dial_proxy_stream-IsDialled}

abbrev address : Bytes
address = text "10.0.0.1:8888"

abbrev published : Entry
published = record { word = text "-2"; dc = negsuc 1; addr = address }

published-IsEntry : IsEntry published
unfolding parse_int trim_right split_host_port
published-IsEntry = record {
  word = (refl, (refl, tt));
  some_word = refl;
  number = refl;
  addr = (
    refl,
    (
      refl,
      (refl, (refl, (refl, (refl, (refl, (refl, (refl, (refl, (refl, (refl, (refl, tt))))))))))),
    ),
  );
  some_addr = refl;
  whole = refl;
  host_port = (_, refl);
  fits = refl;
}

parse_middle_config-config_text_example :
    (table : Table) × (parse_middle_config (config_text (published ∷ published ∷ [])) ≡ some table)
    × ((dc : ℤ) → addrs_of table dc ≡ addrs_for dc (published ∷ published ∷ []))
parse_middle_config-config_text_example =
    parse_middle_config-config_text (published ∷ published ∷ [])
      (published-IsEntry, (published-IsEntry, tt))

-- Comments and the default are skipped, and white space around a line does not matter.
parsed :
    parse_middle_config (
      text "# v4"
      ++ (10 ∷ (text "default 2;" ++ (10 ∷ (text " proxy_for 2 a:1; " ++ (13 ∷ 10 ∷ []))))))
    ≡ some ((pos 2, text "a:1" ∷ []) ∷ [])
unfolding parse_middle_config scan_lines fields trim_space has_prefix parse_int trim_right
    split_host_port append_addr addrs_of insert lookup
parsed = refl

abbrev site : Site
site = record {
  proxy_secret = answered 200 (some (text "secret"));
  config_v4 = answered 200 (some (text "proxy_for 2 a:1;"));
  config_v6 = unreachable;
}

abbrev prefer : Bytes
prefer = text "prefer-ipv6"

ordered :
    ordered_addresses (run (stream site ∷ []) (new_manager prefer)) (pos 2)
    ≡ record { network = tcp4; addr = text "a:1" } ∷ []
unfolding run ensure_ready fetch fetch_bytes fetch_config stored new_manager ordered_addresses
    family str_contains parse_middle_config scan_lines fields trim_space has_prefix parse_int
    trim_right split_host_port append_addr addrs_of insert lookup
ordered = refl

run-IsHeld_example :
    IsHeld
      (λ s. IsAsked s (stream site ∷ ticked site ∷ []))
      (run (stream site ∷ ticked site ∷ []) (new_manager prefer))
run-IsHeld_example = run-IsHeld prefer (stream site ∷ ticked site ∷ [])

abbrev outside : Outside
outside = record {
  md5 = λ b. b;
  sha1 = λ b. b;
  aes_decrypt = λ k b. b;
  random = text "0123456789abcdef";
  unix = 0;
}

abbrev params : DialParams
params = record {
  dc = pos 2;
  client_addr = none;
  public_ipv4 = none;
  public_ipv6 = none;
  advertised_port = 443;
  ad_tag = [];
}

-- A peer that ends its stream at once.
abbrev peer : Peer
peer = record {
  local = none;
  remote = none;
  wire = record { input = []; output = []; broken = false };
}

dial_proxy_stream-IsDialled_example :
    let (m', closed, end) =
      dial_proxy_stream outside (λ a. some peer) [] site (new_manager prefer) params in
    IsDialled outside (λ a. some peer) [] site (new_manager prefer) params m' closed end
dial_proxy_stream-IsDialled_example =
    dial_proxy_stream-IsDialled outside (λ a. some peer) [] site (new_manager prefer) params
