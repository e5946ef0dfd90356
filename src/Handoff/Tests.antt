-- ===== src/Handoff/Tests.antt =====
-- Runs of internal/auth/handoff/handoff.go, and the theorems at sample inputs.
use accessgate.Base.{
  ℕ, ◌+◌, ◌*◌, ◌/◌, String, ◌≡◌, ◌≢◌, refl, Bool, true, false, Option, none, some, List, [], ◌∷◌,
  arith, if◌then◌else◌, ltb, ◌==◌, eq_refl, ◌&&◌, ◌||◌,
}
use accessgate.Base.Int.{ℤ, pos, pos_part, wrap64, ◌+ℤ◌, ◌-ℤ◌}
use accessgate.Base.Text.{cut}
use accessgate.Crypto.Sample.{sample_crypto, sample_laws}
use accessgate.Handoff.{
  Ticket, Issuer, TicketJson, ok, err, ticket_expired, second, new_ticket, issue, verify, once_ttl,
  saturate, seal,
}
use accessgate.Handoff.Once.{Times, OnceStore, OnceLaws, redeem, redeem_all}
use accessgate.Handoff.Laws.{redeem_once, verify-issue}

abbrev issuer : Issuer
issuer = record { secret = "key"; ttl = pos (120 * second) }

abbrev sample : Ticket
sample = record {
  connector_id = "web";
  authoritative_id = "u1";
  session_ref = "s1";
  issued_at = pos 1000;
  expires_at = pos 1120;
  jti = "j1";
}

abbrev sample_json : TicketJson
sample_json = record {
  marshal = λ t. t.jti;
  unmarshal = λ s. if s == "j1" then some sample else none;
}

-- A store of keys with their deadlines.
abbrev Table : Type 0
Table = List (String × ℕ)

table_live : Table → ℕ → String → Bool
table_live [] t key = false
table_live ((j, deadline) ∷ s) t key = (j == key && ltb t deadline) || table_live s t key

table_consume : ℕ → String → ℤ → Table → Option Bool × Table
unfolding table_live
table_consume now key ttl s =
    if table_live s now key then (some false, s) else (some true, (key, now + pos_part ttl) ∷ s)

abbrev table : OnceStore Table
table = record { consume = table_consume; live = table_live }

table_laws : OnceLaws table
unfolding table_consume
table_laws = record {
  fresh = λ now key ttl s h. ground arith;
  recorded = λ now later key ttl s h order inside. ground (arith, eq_refl key);
  kept = λ now later key other ttl s order h. ground arith;
}

abbrev ticket : String
ticket = "j1.key:j1"

abbrev at_once : ℕ → Times
at_once now = record { verified = now; measured = now; consumed = now }

abbrev at_first : Times
at_first = record {
  verified = 1000 * second;
  measured = 1000 * second + 1;
  consumed = 1000 * second + 2;
}

redeemed : (redeem sample_crypto sample_json table issuer at_first ticket []).0 ≡ ok sample
unfolding redeem verify sample_crypto table_consume cut once_ttl saturate wrap64 ◌+ℤ◌ ◌-ℤ◌
redeemed = refl

issued : issue sample_crypto sample_json issuer (1000 * second) "web" "u1" "s1" "j1" ≡ ok ticket
unfolding issue seal new_ticket sample_crypto
issued = refl

read_back :
    sample_json.unmarshal (
      sample_json.marshal
        (new_ticket sample_crypto sample_json issuer (1000 * second) "web" "u1" "s1" "j1"))
    ≡ some (new_ticket sample_crypto sample_json issuer (1000 * second) "web" "u1" "s1" "j1")
unfolding new_ticket
read_back = refl

expired : verify sample_crypto sample_json issuer (1121 * second) ticket ≡ err ticket_expired
unfolding verify sample_crypto cut
expired = refl

redeem_once_example :
    (redeem sample_crypto sample_json table issuer (at_once (1100 * second)) ticket (
      redeem_all sample_crypto sample_json table issuer
        ((at_once (1050 * second), ticket) ∷ [])
        (redeem sample_crypto sample_json table issuer at_first ticket []).1)).0
    ≢ ok sample
redeem_once_example =
    redeem_once sample_crypto sample_json table table_laws issuer at_first (at_once (1100 * second))
      ticket [] sample sample ((at_once (1050 * second), ticket) ∷ []) redeemed (omega arith)
      (omega arith) (omega arith, tt) (omega arith) refl

verify-issue_example : verify sample_crypto sample_json issuer (1100 * second) ticket ≡ (
    if ltb ((1000 * second + 120 * second) / second) (1100 * second / second)
    then err ticket_expired
    else ok (new_ticket sample_crypto sample_json issuer (1000 * second) "web" "u1" "s1" "j1"))
verify-issue_example =
    verify-issue sample_crypto sample_json sample_laws issuer (1000 * second) (1100 * second) "web"
      "u1" "s1" "j1" ticket read_back issued

-- Verified in the last second, and consumed when the record of the first redemption is gone.
abbrev slow : Times
slow = record { verified = 1120 * second; measured = 1120 * second; consumed = 1122 * second }

redeemed_twice :
    (redeem sample_crypto sample_json table issuer slow ticket
      (redeem sample_crypto sample_json table issuer at_first ticket []).1).0
    ≡ ok sample
unfolding redeem verify sample_crypto table_consume cut once_ttl saturate wrap64 ◌+ℤ◌ ◌-ℤ◌
redeemed_twice = refl
