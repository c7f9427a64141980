-- ===== src/PartialToken/Tests.antt =====
-- A token that is bound to an address.
use pier.Base.{none, some, List, [], ◌≡◌, refl}
use pier.PartialToken.{Entry, issue, consume, evict_expired}
use pier.PartialToken.OneShot.{other, stop, next, consume_once}

abbrev store : List Entry
store = issue 100 "t" "olga" (some "10.0.0.1") []

-- The wrong address spends the token too.
spent : (consume 120 "t" (some "10.0.0.2") store).0 ≡ none
unfolding issue consume evict_expired
spent = refl

taken : (consume 120 "t" (some "10.0.0.1") store).0 ≡ some "olga"
unfolding issue consume evict_expired
taken = refl

abbrev after_attempt : List Entry
after_attempt = (consume 120 "t" (some "10.0.0.2") store).1

consume_once_example :
    (consume 130 "t" (some "10.0.0.1") (issue 125 "v" "uwe" none after_attempt)).0 ≡ none
consume_once_example =
    consume_once "t" 120 130 (some "10.0.0.2") (some "10.0.0.1") store
      (issue 125 "v" "uwe" none after_attempt)
      (next (other after_attempt 125 "v" "uwe" none refl)
        (stop (issue 125 "v" "uwe" none after_attempt)))
