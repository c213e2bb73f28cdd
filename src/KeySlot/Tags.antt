-- ===== src/KeySlot/Tags.antt =====
-- Keys with a hash tag share a slot.
use hayakv.Base.{
  ℕ, ◌<◌, ◌%◌, ◌≡◌, refl, ap, sym, ◌∙◌, Bool, true, false, not, ◌&&◌, none, some, [], ◌∷◌, ◌++◌,
  arith, nat_eq,
}
use hayakv.Base.Classes.{Bytes}
use hayakv.KeySlot.{after_open, before_close, hash_tag, crc16, key2slot}

-- is the byte nowhere in the string?
abbrev pub free_of : ℕ → Bytes → Bool
free_of c [] = true
free_of c (b ∷ bs) = not (nat_eq b c) && free_of c bs

after_open_lem :
    (front rest : Bytes) → free_of 123 front ≡ true → after_open (front ++ (123 ∷ rest)) ≡ some rest
unfolding after_open
after_open_lem [] rest h = refl
after_open_lem (c ∷ cs) rest h = ground (arith, h, after_open_lem cs rest)

before_close_lem :
    (tag rest : Bytes) → free_of 125 tag ≡ true → before_close (tag ++ (125 ∷ rest)) ≡ some tag
unfolding before_close
before_close_lem [] rest h = refl
before_close_lem (c ∷ cs) rest h =
    let other : nat_eq c 125 ≡ false = ground (arith, h) in
    let more : free_of 125 cs ≡ true = ground (arith, h) in
    rw (other, before_close_lem cs rest more)

not_opened : (bs : Bytes) → free_of 123 bs ≡ true → after_open bs ≡ none
unfolding after_open
not_opened [] h = refl
not_opened (c ∷ cs) h = ground (arith, h, not_opened cs)

tagged :
    (front tag rest : Bytes) (c : ℕ)
    → free_of 123 front ≡ true
    → free_of 125 (c ∷ tag) ≡ true
    → hash_tag (front ++ (123 ∷ ((c ∷ tag) ++ (125 ∷ rest)))) ≡ c ∷ tag
unfolding hash_tag
tagged front tag rest c h k = rw (
  hash_tag,
  after_open_lem front ((c ∷ tag) ++ (125 ∷ rest)) h,
  before_close_lem (c ∷ tag) rest k,
)

untagged : (key : Bytes) → free_of 123 key ≡ true → hash_tag key ≡ key
unfolding hash_tag
untagged key h = rw (hash_tag, not_opened key h)

-- A key that has a tag in braces, not empty and without braces of its own, and no `{` before it, has
-- the slot of the tag alone, which is one of the 16384.
pub key2slot-hash_tag :
    (front tag rest : Bytes) (c : ℕ)
    → free_of 123 front ≡ true
    → free_of 125 (c ∷ tag) ≡ true
    → free_of 123 (c ∷ tag) ≡ true
    → (key2slot (front ++ (123 ∷ ((c ∷ tag) ++ (125 ∷ rest)))) ≡ key2slot (c ∷ tag))
      × (key2slot (c ∷ tag) < 16384)
unfolding key2slot
key2slot-hash_tag front tag rest c h k l = (
  ap (λ t. crc16 t % 16384) (tagged front tag rest c h k ∙ sym (untagged (c ∷ tag) l)),
  omega arith,
)
