-- ===== src/Blob/Sample.antt =====
-- A concrete cipher, header format and disk of one block, with which the tests run. The cipher
-- leaves the bytes as they are, and its MAC is the key, sixteen times.
use mlsdisk.Blob.Stored.{IsAddressable, IsStored}
use mlsdisk.Blocks.Store.{IsStore, mem_disk-IsStore, whole}
use mlsdisk.Blob.Calls.{Encrypts}
use mlsdisk.Blob.{Header, HeaderBytes}
use mlsdisk.Crypto.{Aead, mac_size}
use mlsdisk.Blocks.{BlockSet, Memory, block_size, disk_nblocks, mem_disk}
use mlsdisk.Base.{
  ==_refl, Errno, List, Outcome, [], ap, arith, drop, err, if◌then◌else◌, length, length-append,
  length-replicate, ok, panic, refl, replicate, subst, sym, take-append, ℕ, ◌*◌, ◌++◌, ◌-◌, ◌<◌,
  ◌==◌, ◌^◌, ◌∙◌, ◌∷◌, ◌≡◌, ◌≤◌,
}

abbrev pub zero_pages : Memory
zero_pages = record {
  pages = λ n. replicate (n * block_size) 0;
  length-pages = λ n. length-replicate (n * block_size) 0;
}

abbrev open_mac : List ℕ → ℕ → List ℕ → Outcome (List ℕ)
open_mac out key [] = err Errno.decrypt_failed
open_mac out key (m ∷ mac) = if m == key then ok out else err Errno.decrypt_failed

abbrev sealed : List ℕ → ℕ → Outcome (List ℕ × List ℕ)
sealed input key = ok (input, replicate 16 key)

abbrev open_sealed : ℕ → Outcome (List ℕ × List ℕ) → Outcome (List ℕ)
open_sealed key (ok (out, mac)) = open_mac out key mac
open_sealed key (err e) = err e
open_sealed key panic = panic

abbrev SizedAs : List ℕ → Outcome (List ℕ × List ℕ) → Type 0
SizedAs input (ok (out, mac)) = (length out ≡ length input) × (length mac ≡ mac_size)
SizedAs input (err e) = Unit {0}
SizedAs input panic = Unit {0}

abbrev pub plain : Aead ℕ
plain = record {
  encrypt = λ input key iv aad. sealed input key;
  decrypt = λ out key iv aad mac. open_mac out key mac;
  decrypt-encrypt = λ input key iv aad out mac e. ap (open_sealed key) (sym e) ∙ rw (==_refl key);
  length-encrypt = λ input key iv aad out mac e. subst (SizedAs input) e (refl, refl);
}

abbrev pub plain-Encrypts : Encrypts plain
plain-Encrypts = λ input key iv aad. (input, replicate 16 key, refl)

-- The version and the length of the payload, fourteen zeros, and the MAC.
abbrev put_header : Header → List ℕ
put_header h = h.version ∷ h.payload_len ∷ (replicate 14 0 ++ h.mac)

abbrev get_header : List ℕ → Header
get_header (v ∷ len ∷ rest) = record { version = v; mac = drop 14 rest; payload_len = len }
get_header (v ∷ []) = record { version = v; mac = []; payload_len = 0 }
get_header [] = record { version = 0; mac = []; payload_len = 0 }

abbrev pub plain_headers : HeaderBytes
plain_headers = record {
  to_bytes = put_header;
  from_bytes = get_header;
  version_bytes = λ v. v ∷ replicate 7 0;
  length-to_bytes = λ h r. omega (arith, r.1);
  from-to_bytes = λ h r. refl;
}

abbrev pub one_block : BlockSet (List ℕ)
one_block = mem_disk (whole 1)

abbrev pub one_block-IsStore :
    IsStore one_block (λ disk. disk) (λ disk. length disk ≡ 1 * block_size)
one_block-IsStore = mem_disk-IsStore 1

abbrev pub header_of : ℕ → ℕ → List ℕ → Header
header_of v key content = record {
  version = v;
  mac = replicate 16 key;
  payload_len = length content;
}

-- A block with a content.
abbrev pub block_of : ℕ → ℕ → List ℕ → List ℕ
block_of v key content =
    put_header (header_of v key content) ++ (content ++ replicate (4064 - length content) 0)

pub block_of-IsAddressable :
    (disk : List ℕ)
    → length disk ≡ 4096
    → IsAddressable zero_pages plain plain_headers one_block one_block-IsStore disk
unfolding block_size disk_nblocks
block_of-IsAddressable disk h = record {
  holds = h;
  some_block = omega (arith, one);
  in_range = omega (arith, one);
}
  where
    one : disk_nblocks (whole 1) ≡ 1
    one = refl

pub block_of-IsStored :
    (v key : ℕ) (content : List ℕ)
    → v < 2 ^ 64
    → length content ≤ 4000
    → IsStored zero_pages plain plain_headers one_block one_block-IsStore
        (block_of v key content)
        key
        (header_of v key content)
        content
unfolding block_size disk_nblocks
block_of-IsStored v key content small fits = record {
  addressable = block_of-IsAddressable (block_of v key content) (
      omega (
        arith,
        fits,
        length-append content (replicate (4064 - length content) 0),
        length-replicate {A = ℕ} (4064 - length content) 0,
      ));
  ranged = (small, refl, omega arith);
  sized = refl;
  room = omega (arith, fits);
  cipher = content;
  header_there = refl;
  cipher_there = take-append (length content) content (replicate (4064 - length content) 0) refl;
  decrypts = rw (==_refl key);
}
