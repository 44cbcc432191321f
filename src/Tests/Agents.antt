-- ===== src/Tests/Agents.antt =====
-- The theorems about the fake agent at concrete requests.
use text.Mathlib.TextLemmas.{append_cancel_left}
use vpn_controll_app.Base.{
  ℕ, zero, suc, String, some, none, [], ◌∷◌, ◌≡◌, refl, ap, string_Eq, true, is_some,
}
use vpn_controll_app.Dict.{lookup, insert}
use vpn_controll_app.Domain.Json.{obj, end}
use vpn_controll_app.Agent.Fake.{
  FakeTransport, FakeWorld, node_at, respond, issue, issue_read, request,
}
use vpn_controll_app.Agent.Fake.Addresses.{run, run-addresses}
use vpn_controll_app.Agent.Fake.Octets.{AddressLaw, IsAddressed}
use vpn_controll_app.Agent.Fake.Peers.{QuoteLaw, issuing, after_issue, after_revoke, issue-revoke}
use vpn_controll_app.Tests.Sample.{outside}

-- A number in unary.
strokes : ℕ → String
strokes zero = ""
strokes (suc n) = String.◌∷◌ "1" (strokes n)

abbrev world : FakeWorld
world = record {
  loads = λ s. some (obj end);
  text = strokes;
  repr = λ v. "";
  join = λ v. some "";
  link = λ s. s;
  unquote = λ s. s;
}

strokes_injective : (m n : ℕ) → strokes m ≡ strokes n → m ≡ n
unfolding strokes
strokes_injective zero zero h = refl
strokes_injective zero (suc n) h = cc
strokes_injective (suc m) zero h = cc
strokes_injective (suc m) (suc n) h = ap suc (strokes_injective m n (cc))

address_law : AddressLaw world
address_law m n h = strokes_injective m n (append_cancel_left "10.8.1." _ _ h)

abbrev empty : FakeTransport
empty = record { nodes = []; last_request = none }

-- Two devices, one after the other.
abbrev two : FakeTransport
two =
    run world
      (("a", issuing outside world "http://a" end "{}")
        ∷ ("b", issuing outside world "http://a" end "{}")
        ∷ [])
      empty

run-addresses_example : IsAddressed world 2 (node_at world "http://a" two)
unfolding run request respond issue issue_read lookup insert
run-addresses_example =
    run-addresses world
      (("a", issuing outside world "http://a" end "{}")
        ∷ ("b", issuing outside world "http://a" end "{}")
        ∷ [])
      "http://a" (node_at world "http://a" two) address_law refl

quote_law : QuoteLaw outside world
quote_law s = refl

issue-revoke_example :
    (is_some (
        lookup "k/+="
          (node_at world "http://a"
            (after_issue outside world "http://a" end "{}" "k/+=" empty)).peers)
      ≡ true)
    × ((node_at world "http://a"
          (after_revoke outside world "http://a" end "{}" "k/+=" "c" empty)).peers
        ≡ (node_at world "http://a" empty).peers)
unfolding lookup
issue-revoke_example =
    issue-revoke outside world "http://a" "{}" "k/+=" "c" end end empty quote_law refl refl
