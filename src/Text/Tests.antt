-- ===== src/Text/Tests.antt =====
-- Runs of the text operations.
use fence_agents.Base.{◌≡◌, refl, [], ◌∷◌, none, some}
use fence_agents.Base.Int.{negsuc}
use fence_agents.Text.{lower, upper, strip, split, partition}
use fence_agents.Text.Number.{int_of_text}
use fence_agents.Text.Uuid.{uuid_of_text}

test_lower : (lower "Reboot-X" ≡ "reboot-x") × (upper "on" ≡ "ON")
unfolding lower upper
test_lower = (refl, refl)

test_split : split "a,b,,c" "," ≡ some ("a" ∷ "b" ∷ "" ∷ "c" ∷ [])
unfolding split
test_split = refl

test_split_long : split "xx--y--" "--" ≡ some ("xx" ∷ "y" ∷ "" ∷ [])
unfolding split
test_split_long = refl

test_strip : strip "  a b \t" ≡ "a b"
unfolding strip
test_strip = refl

test_partition : partition b'=' "k=v=w" ≡ ("k", "v=w")
unfolding partition
test_partition = refl

test_int : (int_of_text 10 " -1_0 " ≡ some (negsuc 9)) × (int_of_text 10 "1__0" ≡ none)
unfolding int_of_text
test_int = (refl, refl)

test_uuid :
    uuid_of_text "{12345678-1234-5678-1234-56781234567A}"
    ≡ some "12345678-1234-5678-1234-56781234567a"
unfolding uuid_of_text
test_uuid = refl

test_no_uuid : uuid_of_text "node1" ≡ none
unfolding uuid_of_text
test_no_uuid = refl
