-- ===== src/Witnesses/Samples/Formats.antt =====
-- A codec, a format of times, a hasher and an issuer of tokens.
use mycelium_consciousness.Prelude.{
  ℕ, zero, suc, ◌<◌, ◌≤◌, Text, Bool, false, List, [], ◌∷◌, ◌++◌, Option, none, some, map, ◌≡◌, ◌≢◌,
  refl, sym, arith, ap, append-nil, ltb, leb, ◌&&◌, ◌==◌, if◌then◌else◌, text_eq, text_eq_iff,
  text_eq_self, str_of, int_of, int_of-str_of, take,
}
use mathlib.Core.Path.{ap₂}
use mycelium_consciousness.Services.{
  Bytes, Item, Datetime, naive, aware, aware_at, Codec, Iso, Hasher, Claims, Jwt,
}
use mycelium_consciousness.Services.Laws.{CodecLaws, IsoLaws, HasherLaws, JwtLaws, gzip_magic}

abbrev shifted : Text → Bytes
shifted = map (λ c. suc (suc c))

-- An item begins with 1, and 0 stands between its texts; characters are moved up by two.
abbrev pack : List Item → Bytes
pack [] = []
pack (x ∷ xs) = 1 ∷ (shifted x.content ++ 0 ∷ (shifted x.captured_at ++ pack xs))

-- Read from the right: the text since the last mark, the one behind it, and the items.
record Partial : Type 0 where
  pub text : Text
  pub behind : Text
  pub items : List Item

read_byte : ℕ → Partial → Partial
read_byte zero p = record { text = []; behind = p.text; items = p.items }
read_byte (suc zero) p = record {
  text = [];
  behind = [];
  items = record { content = p.text; captured_at = p.behind } ∷ p.items;
}
read_byte (suc (suc c)) p = record { text = c ∷ p.text; behind = p.behind; items = p.items }

read_bytes : Bytes → Partial
unfolding read_byte
read_bytes [] = record { text = []; behind = []; items = [] }
read_bytes (b ∷ bs) = read_byte b (read_bytes bs)

read_shifted :
    (t : Text) (r : Bytes)
    → read_bytes (shifted t ++ r) ≡ record {
      text = t ++ (read_bytes r).text;
      behind = (read_bytes r).behind;
      items = (read_bytes r).items;
    }
unfolding read_bytes
read_shifted [] r = refl
read_shifted (c ∷ t) r = rw (read_shifted t r) refl

read_pack : (xs : List Item) → read_bytes (pack xs) ≡ record { text = []; behind = []; items = xs }
unfolding read_bytes
read_pack [] = refl
read_pack (x ∷ xs) =
    rw
      (
        read_shifted x.content (0 ∷ (shifted x.captured_at ++ pack xs)),
        read_shifted x.captured_at (pack xs),
        read_pack xs,
      )
      (ap₂
        (λ t u. record {
          text = [];
          behind = [];
          items = record { content = t; captured_at = u } ∷ xs;
        })
        (append-nil x.content) (append-nil x.captured_at))

abbrev tail : Bytes → Bytes
tail [] = []
tail (_ ∷ bs) = bs

unfoldable pub unpack : Bytes → Option (List Item)
unfolding read_bytes
unpack b = some (read_bytes (tail b)).items

abbrev pub codec : Codec
codec = record {
  packb = λ xs. 0x90 ∷ pack xs;
  unpackb = unpack;
  compress = λ b. 0x1f ∷ 0x8b ∷ b;
  decompress = λ b. some (tail (tail b));
}

take_none : (b : Bytes) → 0x1f ∷ 0x8b ∷ take 0 b ≡ gzip_magic
take_none [] = refl
take_none (_ ∷ b) = refl

abbrev head : Bytes → ℕ
head [] = 0
head (b ∷ _) = b

differ : ◌≢◌ {A = ℕ} 0x90 0x1f
differ e = omega arith

pub codec_laws : CodecLaws codec
unfolding unpack
codec_laws = record {
  unpackb-packb = λ xs. ap (λ p. some p.items) (read_pack xs);
  decompress-compress = λ b. refl;
  take-compress = λ b. take_none b;
  take-packb = λ xs e. differ (ap head e);
}

abbrev parse_time : Text → Option ℕ → Option Datetime
parse_time _ none = none
parse_time [] (some t) = none
parse_time (c ∷ _) (some t) = if c == b'Z' then some (aware t) else some (naive t)

unfoldable pub iso_text : Datetime → Text
iso_text (aware t) = b'Z' ∷ str_of t
iso_text (naive t) = b'N' ∷ str_of t
iso_text (aware_at t wall) = b'O' ∷ (str_of t ++ b'/' ∷ str_of wall)

abbrev pub iso : Iso
iso = record {
  isoformat = iso_text;
  fromisoformat = λ s. parse_time s (int_of (tail s));
  stamp = iso_text;
}

iso_laws : IsoLaws iso
unfolding iso_text
iso_laws = record { fromisoformat-isoformat = λ t. rw (int_of-str_of t) refl }

unfoldable pub check_hash : Text → Text → Option Bool
unfolding text_eq
check_hash [] p = none
check_hash (_ ∷ q) p = some (text_eq p q)

abbrev or_no : Option Bool → Bool
or_no none = false
or_no (some b) = b

abbrev pub hasher : Hasher
hasher = record { hash = λ salt p. salt ∷ p; verify = check_hash }

pub hasher_laws : HasherLaws hasher
unfolding check_hash
hasher_laws = record {
  verify-hash = λ salt p. rw (text_eq_self p) refl;
  verify-hash_ne = λ salt p q ne e. ne (sym ((text_eq_iff q p).0 (ap or_no e)));
}

-- A text up to a 0, with its characters moved up by one, and what is behind the 0.
cut : Text → Text × Text
cut [] = ([], [])
cut (zero ∷ r) = ([], r)
cut (suc c ∷ r) = let p = cut r in (c ∷ p.0, p.1)

cut-append : (s r : Text) → cut (map (λ c. suc c) s ++ 0 ∷ r) ≡ (s, r)
unfolding cut
cut-append [] r = refl
cut-append (c ∷ s) r = rw (cut-append s r)

abbrev claims_text : (exp iat : ℕ) (role : Text) → Option Text → Text
claims_text exp iat role none = exp ∷ iat ∷ 0 ∷ role
claims_text exp iat role (some sub) = exp ∷ iat ∷ 1 ∷ (map (λ x. suc x) sub ++ 0 ∷ role)

unfoldable pub read_claims : ℕ → Text → Option Claims
unfolding cut
read_claims now (exp ∷ iat ∷ zero ∷ role) =
    if leb iat now && ltb now exp
    then some (record { sub = none; role = role; iat = iat; exp = exp })
    else none
read_claims now (exp ∷ iat ∷ suc _ ∷ rest) =
    let (sub, role) = cut rest in
    if leb iat now && ltb now exp
    then some (record { sub = some sub; role = role; iat = iat; exp = exp })
    else none
read_claims now _ = none

abbrev pub jwt : Jwt
jwt = record { encode = λ c. claims_text c.exp c.iat c.role c.sub; decode = read_claims }

decode_live :
    (now exp iat : ℕ) (role : Text) (sub : Option Text)
    → iat ≤ now
    → now < exp
    → read_claims now (claims_text exp iat role sub)
      ≡ some (record { sub = sub; role = role; iat = iat; exp = exp })
unfolding read_claims
decode_live now exp iat role none k h = ground arith
decode_live now exp iat role (some sub) k h = rw (cut-append sub role) (ground arith)

decode_dead :
    (now exp iat : ℕ) (role : Text) (sub : Option Text)
    → exp ≤ now
    → read_claims now (claims_text exp iat role sub) ≡ none
unfolding read_claims
decode_dead now exp iat role none h = ground arith
decode_dead now exp iat role (some sub) h = rw (cut-append sub role) (ground arith)

pub jwt_laws : JwtLaws jwt
jwt_laws = record {
  decode-encode = λ now c. decode_live now c.exp c.iat c.role c.sub;
  decode_expired = λ now c. decode_dead now c.exp c.iat c.role c.sub;
}
