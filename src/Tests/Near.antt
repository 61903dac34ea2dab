-- ===== src/Tests/Near.antt =====
-- A concrete contract log and response for verifiers/near_ai_lightclient.py.
use awesome_private_inferenc.Prelude.{
  ℕ, String, ◌≡◌, refl, true, false, Option, none, some, List, [], ◌∷◌, ◌++◌, contains, any, nat_eq,
  list_eq, string_eq,
}
use awesome_private_inferenc.Prelude.Dict.{lookup, insert}
use awesome_private_inferenc.Prelude.Text.{codes, is_prefix}
use awesome_private_inferenc.Json.{Json, end, field, nil, cons, str, arr, obj, bool, null, num}
use awesome_private_inferenc.Result.{ok, err}
use awesome_private_inferenc.Verifiers.Near.Chain.{
  Text, LogItem, Page, compose_hash_added, addition, read_items, read_pages, place, sort,
  old_enough, max_pages, fetch_onchain_set_live,
}
use awesome_private_inferenc.Verifiers.Near.Chain.Earliest.{
  additions, is_old_addition, fetch_onchain_set_live_iff,
}
use awesome_private_inferenc.Verifiers.Near.LightClient.{
  Query, World, LightReport, live, skip, latest_compose_up, onchain_set, first_attestation,
  check_block_a, check_latest, check_inner, verify, Checks,
}
use awesome_private_inferenc.Verifiers.Near.LightClient.Checked.{IsChecked, verify-IsChecked}
use awesome_private_inferenc.Verifiers.Reports.{not_checked}

abbrev hash_text : String
hash_text = "abababababababababababababababababababababababababababababababab"

-- an addition of the hash at a time
abbrev added : String → LogItem
added time = record {
  topics = compose_hash_added ∷ [];
  log_data = codes "0x" ++ codes hash_text;
  block_timestamp = codes time;
}

-- a page with the hash added early, then one on which it is added again, too late
abbrev get_page : Option Query → Option (Page Query)
get_page none =
    some (record { items = added "" ∷ []; next_page_params = some (("page", num 2) ∷ []) })
get_page (some next) = some (record { items = added "z" ∷ []; next_page_params = none })

-- the empty stamp is 100, any other one 900
abbrev seconds : Text → Option ℕ
seconds [] = some 100
seconds (c ∷ cs) = some 900

fetch_onchain_set_live_iff_example :
    (found : List (Text × ℕ)) × (additions seconds get_page max_pages none ≡ some found)
    × ((hash : Text)
        → contains hash (codes hash_text ∷ []) ≡ any (is_old_addition 500 50 hash) found)
unfolding fetch_onchain_set_live read_pages read_items addition lookup insert old_enough sort place
    is_prefix
fetch_onchain_set_live_iff_example =
    fetch_onchain_set_live_iff seconds get_page 500 50 (codes hash_text ∷ []) refl

abbrev nonce : List ℕ
nonce = codes "cdcdcdcdcdcdcdcdcdcdcdcdcdcdcdcdcdcdcdcdcdcdcdcdcdcdcdcdcdcdcdcd"

-- the pinned file, first at another commit, then at the pinned one
abbrev action : String → Json
action commit = obj (
    field "action" (str "compose_up") (
      field "file" (str "GLM-5.1.yaml") (
        field "commit" (str commit) (
          field "file_sha256"
            (str "10146e2f3249ab6217bd506138144001fd6be666f88dff678648f19660ea997c") end))))

abbrev manager : Json
manager = obj (
    field "actions"
      (arr (cons (action "other") (cons (action "a94d7c776cf902e5c083960baeafb6b084c473a1") nil)))
      (field "actions_hash" (str hash_text) (
        field "report_data"
          (str
            "ababababababababababababababababababababababababababababababababcdcdcdcdcdcdcdcdcdcdcdcdcdcdcdcdcdcdcdcdcdcdcdcdcdcdcdcdcdcdcdcd")
          end)))

abbrev model : Json
model = obj (
    field "info" (obj (field "app_id" (str "A1") (field "compose_hash" (str hash_text) end))) (
      field "signing_public_key" (str "04")
        (field "signing_address" (str "0xA") (field "compose_manager_attestation" manager end))))

abbrev world : World
world = record {
  attestation_report = λ name n. some (record {
    status_code = 200;
    body = some (("model_attestations", arr (cons model nil)) ∷ []);
  });
  check_tdx_quote = λ m. obj (field "verified" (bool true) end);
  check_report_data = λ m n intel. ("binds_address", bool true) ∷ ("embeds_nonce", bool true) ∷ [];
  check_gpu = λ m n. ("verdict", str "PASS") ∷ ("nonce_matches", bool true) ∷ [];
  keccak_eth_address = λ key. some (codes "0xa");
  captured = (codes "0xa1", codes hash_text ∷ []) ∷ [];
  logs = λ address. get_page;
  timestamp = seconds;
  now = 500;
}

abbrev unreached : LightReport
unreached = record {
  valid = true;
  verification_status = not_checked;
  model_name = "";
  signing_address = [];
  signing_public_key = [];
  app_id = [];
  compose_hash = [];
  onchain_set_size = 0;
  onchain_check = skip;
  inner_yaml = none;
  inner_commit = null;
  inner_file_sha256 = null;
  inner_tag = none;
  inner_timestamp = none;
}

abbrev reached : Checks LightReport → LightReport
reached (ok r) = r
reached (err e) = unreached

abbrev result : LightReport
result = reached (verify world "zai-org/GLM-5.1-FP8" (live 50) nonce)

verify-IsChecked_example :
    (result.valid ≡ false) × IsChecked world "zai-org/GLM-5.1-FP8" (live 50) nonce result
unfolding verify first_attestation check_block_a check_inner check_latest latest_compose_up
    onchain_set fetch_onchain_set_live read_pages read_items addition lookup insert old_enough sort
    place is_prefix
verify-IsChecked_example = verify-IsChecked world "zai-org/GLM-5.1-FP8" (live 50) nonce result refl
