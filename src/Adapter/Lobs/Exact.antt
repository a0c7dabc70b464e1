-- ===== src/Adapter/Lobs/Exact.antt =====
-- readLob: the chunks that it asks for, and the content that it returns.
use Prim.Native.Nat.add
use cubrid_client.Base.{
  ℕ, zero, suc, ◌+◌, ◌-◌, ◌≤◌, ◌<◌, ◌≡◌, refl, ap, arith, Bool, true, false, List, [], ◌∷◌, ◌++◌,
  ltb, if◌then◌else◌, pos, length, length-append, drop, min,
}
use cubrid_client.Failure.{Result, ok, fail, unsupported_value}
use cubrid_client.Errors.{Thrown, failure}
use cubrid_client.Request.{Frame, write_lob_read}
use cubrid_client.Reply.Simple.{parse_lob_read}
use cubrid_client.Value.{LobLocator}
use cubrid_client.Session.World.{World}
use cubrid_client.Session.Exchange.{send_and_recv_on_session}
use cubrid_client.Adapter.{Adapter, Turned, done, threw, Turn, then_turn}
use cubrid_client.Adapter.Turns.{Platform, ◌>>=◌, ◌>>◌, give, lifted, on_cas, answered_or_lost}
use cubrid_client.Adapter.Asking.{RepliedOn, asked_then}
use cubrid_client.Adapter.Lobs.{
  lob_read_chunk_size, refuse_empty, read_chunk, read_chunks, read_content,
}
use cubrid_client.Adapter.Lobs.Sized.{Sized, sized, unsized, parse_lob_read-Sized}

-- The bytes of the next LOB_READ behind the ones received.
abbrev pub next_size : LobLocator → ℕ → ℕ
next_size locator received = min (locator.size - received) lob_read_chunk_size

-- The LOB_READ requests from the state `w` with the content so far to the state `w'` with all of it:
-- each asks on the session `g` for what comes next, and brings at least one byte.
pub data Read (p : Platform) (g : ℕ) (locator : LobLocator)
    : List ℕ → World → List ℕ → World → Type 0 where
  all_read : {content : List ℕ} {w : World} → Read p g locator content w content w
  chunk :
      {content all : List ℕ} {w v w' : World} (cas_info : List ℕ) (f : Frame) (body bytes : List ℕ)
      → write_lob_read locator.handle
          (pos (length content))
          (pos (next_size locator (length content)))
          cas_info
        ≡ ok f
      → RepliedOn p g f w v body
      → parse_lob_read (drop 4 body) (next_size locator (length content)) ≡ ok bytes
      → 0 < length bytes
      → Read p g locator (content ++ bytes) v all w'
      → Read p g locator content w all w'

-- One chunk that came, or a failure.
data Came (p : Platform) (g : ℕ) (locator : LobLocator) (n size : ℕ) (a : Adapter)
    : Turned (List ℕ) → Type 0 where
  came :
      (b : Adapter) (cas_info : List ℕ) (f : Frame) (body bytes : List ℕ)
      → write_lob_read locator.handle (pos n) (pos size) cas_info ≡ ok f
      → RepliedOn p g f a.world b.world body
      → parse_lob_read (drop 4 body) size ≡ ok bytes
      → 0 < length bytes
      → length bytes ≤ size
      → Came p g locator n size a (done bytes b)
  failed : (e : Thrown) (b : Adapter) → Came p g locator n size a (threw e b)

Sized-ok :
    (n : ℕ) (r : Result (List ℕ)) (bytes : List ℕ) → Sized n r → r ≡ ok bytes → length bytes ≤ n
Sized-ok n _ bytes (sized bs h) e = ground arith
Sized-ok n _ bytes (unsized x) e = ground arith

module _ (p : Platform) (g : ℕ) (locator : LobLocator) where
  module _ (n size : ℕ) (a : Adapter) (f : Frame)
      (written : write_lob_read locator.handle (pos n) (pos size) a.world.cas.cas_info ≡ ok f) where
    full-Came :
        (b : Adapter) (body bytes : List ℕ)
        → RepliedOn p g f a.world b.world body
        → parse_lob_read (drop 4 body) size ≡ ok bytes
        → Came p g locator n size a ((refuse_empty bytes >> give bytes) b)
    full-Came b body [] r e = failed (failure unsupported_value) b
    full-Came b body (x ∷ xs) r e =
        came b a.world.cas.cas_info f body (x ∷ xs) written r e (omega arith)
          (Sized-ok size _ (x ∷ xs) (parse_lob_read-Sized (drop 4 body) size) e)

    parsed-Came :
        (body : List ℕ) (b : Adapter)
        → RepliedOn p g f a.world b.world body
        → (q : Result (List ℕ)) → parse_lob_read (drop 4 body) size ≡ q
        → Came p g locator n size a
            (then_turn (lifted q b) (λ bytes. refuse_empty bytes >> give bytes))
    parsed-Came body b r (fail x) e = failed (failure x) b
    parsed-Came body b r (ok bytes) e = full-Came b body bytes r e

    asked-Came : Came p g locator n size a (
        then_turn (on_cas (send_and_recv_on_session p.network g f) a) (λ reply b.
          then_turn (answered_or_lost reply b) (λ payload c.
            then_turn
              (lifted (parse_lob_read payload size) c)
              (λ bytes. refuse_empty bytes >> give bytes))))
    asked-Came =
        asked_then p g f a _ (Came p g locator n size a)
          (λ body b r. parsed-Came body b r (parse_lob_read (drop 4 body) size) refl) failed

  read_chunk-Came :
      (n size : ℕ) (a : Adapter) → Came p g locator n size a (read_chunk p g locator n size a)
  unfolding read_chunk
  read_chunk-Came n size a =
      go (write_lob_read locator.handle (pos n) (pos size) a.world.cas.cas_info) refl
    where
      go :
          (q : Result Frame)
          → write_lob_read locator.handle (pos n) (pos size) a.world.cas.cas_info ≡ q
          → Came p g locator n size a (
              then_turn (lifted q a) (λ f b.
                then_turn (on_cas (send_and_recv_on_session p.network g f) b) (λ reply.
                  answered_or_lost reply >>= λ payload.
                  lifted (parse_lob_read payload size) >>= λ bytes.
                  refuse_empty bytes >> give bytes)))
      go (fail x) e = failed (failure x) a
      go (ok f) e = asked-Came n size a f e

  -- The loop ends with the whole content, or throws.
  pub data WholeLob (content : List ℕ) (a : Adapter) : Turned (List ℕ) → Type 0 where
    whole_lob :
        (all : List ℕ) (b : Adapter)
        → length all ≡ locator.size
        → Read p g locator content a.world all b.world
        → WholeLob content a (done all b)
    not_read : (e : Thrown) (b : Adapter) → WholeLob content a (threw e b)

  read_more :
      (content : List ℕ) (a : Adapter) (k : List ℕ → Turn (List ℕ)) (s : Turned (List ℕ))
      → ((bytes : List ℕ) (b : Adapter)
          → 0 < length bytes
          → length bytes ≤ next_size locator (length content)
          → WholeLob (content ++ bytes) b (k (content ++ bytes) b))
      → Came p g locator (length content) (next_size locator (length content)) a s
      → WholeLob content a (then_turn s (λ bytes. k (content ++ bytes)))
  read_more content a k _ h (failed e b) = not_read e b
  read_more content a k _ h (came b cas_info f body bytes w r q l m) =
      go (k (content ++ bytes) b) (h bytes b l m)
    where
      go : (s : Turned (List ℕ)) → WholeLob (content ++ bytes) b s → WholeLob content a s
      go _ (whole_lob all c e x) = whole_lob all c e (chunk cas_info f body bytes w r q l x)
      go _ (not_read e c) = not_read e c

  at_size : (n size : ℕ) → n ≤ size → ltb n size ≡ false → n ≡ size
  at_size n size h k = ground arith

  -- A chunk of at most the size asked for stays within the content.
  within_size :
      (content bytes : List ℕ)
      → length content ≤ locator.size
      → length bytes ≤ next_size locator (length content)
      → length (content ++ bytes) ≤ locator.size
  within_size content bytes h m = omega (arith, h, m, length-append content bytes)

  read_chunks-WholeLob :
      (fuel : ℕ) (content : List ℕ) (a : Adapter)
      → length content ≤ locator.size
      → locator.size - length content < fuel
      → WholeLob content a (read_chunks p g locator fuel content a)
  unfolding read_chunks
  read_chunks-WholeLob zero content a h k = absurd (omega (arith, k))
  read_chunks-WholeLob (suc fuel) content a h k =
      go (ltb (length content) locator.size) refl (λ bytes b l m.
        read_chunks-WholeLob fuel (content ++ bytes) b (within_size content bytes h m)
          (omega (arith, h, k, l, m, length-append content bytes)))
    where
      go :
          (b : Bool)
          → ltb (length content) locator.size ≡ b
          → ((bytes : List ℕ) (c : Adapter)
              → 0 < length bytes
              → length bytes ≤ next_size locator (length content)
              → WholeLob (content ++ bytes) c (read_chunks p g locator fuel (content ++ bytes) c))
          → WholeLob content a (
              if b
              then (read_chunk p g locator (length content) (next_size locator (length content))
                    >>= λ bytes. read_chunks p g locator fuel (content ++ bytes))
                  a
              else done content a)
      go true e ih =
          read_more content a (read_chunks p g locator fuel)
            (read_chunk p g locator (length content) (next_size locator (length content)) a) ih
            (read_chunk-Came (length content) (next_size locator (length content)) a)
      go false e ih = whole_lob content a (at_size (length content) locator.size h e) all_read

  -- More fuel than bytes to come changes nothing.
  pub read_chunks-enough :
      (more fuel : ℕ) (content : List ℕ) (a : Adapter)
      → length content ≤ locator.size
      → locator.size - length content < fuel
      → read_chunks p g locator (fuel + more) content a ≡ read_chunks p g locator fuel content a
  unfolding read_chunks
  read_chunks-enough more zero content a h k = absurd (omega (arith, k))
  read_chunks-enough more (suc fuel) content a h k = rw add.suc (
      ap (λ (s : Turned (List ℕ)). if ltb (length content) locator.size then s else done content a)
        (go (read_chunk p g locator (length content) (next_size locator (length content)) a)
          (read_chunk-Came (length content) (next_size locator (length content)) a)
          (λ bytes b l m.
            read_chunks-enough more fuel (content ++ bytes) b (within_size content bytes h m)
              (omega (arith, h, k, l, m, length-append content bytes)))))
    where
      go :
          (s : Turned (List ℕ))
          → Came p g locator (length content) (next_size locator (length content)) a s
          → ((bytes : List ℕ) (b : Adapter)
              → 0 < length bytes
              → length bytes ≤ next_size locator (length content)
              → read_chunks p g locator (fuel + more) (content ++ bytes) b
                ≡ read_chunks p g locator fuel (content ++ bytes) b)
          → then_turn s (λ bytes. read_chunks p g locator (fuel + more) (content ++ bytes))
            ≡ then_turn s (λ bytes. read_chunks p g locator fuel (content ++ bytes))
      go _ (failed e b) ih = refl
      go _ (came b cas_info f body bytes w r q l m) ih = ih bytes b l m

  -- On any network, readLob returns exactly as many bytes as the locator declares, read in order by
  -- LOB_READ requests on the given session alone, each for what comes next and for no more than the
  -- chunk size; or it throws.
  pub read_content-WholeLob : (a : Adapter) → WholeLob [] a (read_content p g locator a)
  unfolding read_content
  read_content-WholeLob a = read_chunks-WholeLob (suc locator.size) [] a (omega arith) (omega arith)
