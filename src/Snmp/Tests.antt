-- ===== src/Snmp/Tests.antt =====
-- Quotes in a community.
use fence_agents.Base.{◌≡◌, refl, some, ◌<>◌, nat_eq}
use fence_agents.Snmp.Quote.{quote_for_run, read_word, bare, read_word-quote_for_run}

test_quote : quote_for_run "it's" ≡ "it'\\''s"
unfolding quote_for_run nat_eq
test_quote = refl

read_word-quote_for_run_example :
    read_word bare ("'" <> (quote_for_run "it's" <> "'")) ≡ some "it's"
read_word-quote_for_run_example = read_word-quote_for_run "it's"
