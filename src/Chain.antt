-- ===== src/Chain.antt =====
-- The chain of encrypted blocks of core/src/layers/1-crypto/crypto_chain.rs, over a log of blocks.
-- The bytes of a footer are those of the package pod; a random vector is an argument.
pub mod Linked
pub mod Recovered
pub mod Appended
pub mod Trimmed
pub mod OnRing
mod Tests
use mlsdisk.Base.{
  Bool, Errno, List, Option, Outcome, [], add_usize, assert, drop, err, get_elem?, if◌then◌else◌,
  last?, leb, length, ltb, none, ok, panic, replicate, some, suc, true, unwrap, zero, ℕ, ◌&&◌, ◌++◌,
  ◌-◌, ◌<◌, ◌>>=◌, ◌>>◌, ◌^◌, ◌∷◌, ◌≡◌,
}
use mlsdisk.Blocks.{Memory, alloc_buf, copy_from_slice, slice}
use mlsdisk.Crypto.{Aead, mac_size}
use mlsdisk.Log.{BlockLog}
use mlsdisk.Journal.{bytes_eq}

-- `Footer`
pub record Footer : Type 0 where
  pub len : ℕ
  pub pre_mac : List ℕ
  pub this_mac : List ℕ
  pub this_iv : List ℕ

-- A footer whose fields are in the range of their types.
abbrev pub IsFooter : Footer → Type 0
IsFooter f =
    (f.len < 2 ^ 32)
    × (length f.pre_mac ≡ mac_size)
    × (length f.this_mac ≡ mac_size)
    × (length f.this_iv ≡ 12)

-- `as_bytes` and `from_bytes` of a footer
pub record FooterBytes : Type 0 where
  pub to_bytes : Footer → List ℕ
  pub from_bytes : List ℕ → Footer
  pub length-to_bytes : (f : Footer) → IsFooter f → length (to_bytes f) ≡ 48
  pub from-to_bytes : (f : Footer) → IsFooter f → from_bytes (to_bytes f) ≡ f

-- `AVAIL_BLOCK_SIZE`
abbrev pub avail_block_size : ℕ
avail_block_size = 4048

-- `CryptoChain`
pub record CryptoChain (L K : Type 0) : Type 0 where
  pub block_log : L
  pub key : K
  pub start : ℕ
  pub end : ℕ
  pub block_macs : List (List ℕ)

-- `CryptoChain::new`, with the random key
abbrev pub new_chain : {L K : Type 0} → K → L → CryptoChain L K
new_chain key block_log = record {
  block_log = block_log;
  key = key;
  start = 0;
  end = 0;
  block_macs = [];
}

-- `Recovery`, without its buffers
pub record Recovery (L K : Type 0) : Type 0 where
  pub block_log : L
  pub key : K
  pub start : ℕ
  pub end : ℕ
  pub block_macs : List (List ℕ)

-- `Recovery::new`
abbrev pub new_recovery : {L K : Type 0} → L → K → ℕ → Recovery L K
new_recovery block_log key first_block = record {
  block_log = block_log;
  key = key;
  start = first_block;
  end = first_block;
  block_macs = [];
}

-- `Recovery::open`
abbrev pub open_recovery : {L K : Type 0} → Recovery L K → CryptoChain L K
open_recovery r = record {
  block_log = r.block_log;
  key = r.key;
  start = r.start;
  end = r.end;
  block_macs = r.block_macs;
}

-- The last MAC, or the default one.
abbrev pub last_mac : List (List ℕ) → List ℕ
last_mac macs = elim (last? macs) [ none ↦ replicate mac_size 0 | some mac ↦ mac ]

-- Whether a block may follow a block with the last MAC; the first block is not checked.
abbrev pub follows : Option (List ℕ) → List ℕ → Bool
follows none pre_mac = true
follows (some mac) pre_mac = bytes_eq mac pre_mac

-- `CryptoChain::trim`
pub trim : {L K : Type 0} → CryptoChain L K → ℕ → Outcome (CryptoChain L K)
trim c before_block = do
  assert (ltb before_block c.end)
  if leb before_block c.start then ok c else (do
    assert (leb (before_block - c.start) (length c.block_macs))
    ok (record c { start = before_block; block_macs = drop (before_block - c.start) c.block_macs }))

module _ {L K : Type 0} (memory : Memory) (aead : Aead K) (fb : FooterBytes)
    (log : BlockLog L) where
  -- `CryptoChain::read` into a buffer of some length
  pub read_chain : CryptoChain L K → ℕ → ℕ → Outcome (List ℕ)
  read_chain c pos buf_len =
      if leb c.start pos && ltb pos c.end
      then (do
        fresh ← alloc_buf memory 1
        block ← log.read c.block_log pos 1
        tail ← slice block avail_block_size (length block)
        let footer : Footer = fb.from_bytes tail
        if leb footer.len avail_block_size && leb footer.len buf_len
            then (do
              this_mac ← unwrap (get_elem? c.block_macs (pos - c.start))
              if bytes_eq footer.this_mac this_mac
                  then (do
                    input ← slice block 0 footer.len
                    aead.decrypt input c.key footer.this_iv footer.pre_mac footer.this_mac)
                  else err Errno.not_found)
            else err Errno.out_of_disk)
      else err Errno.not_found

  -- `CryptoChain::append`, with the random vector
  pub append_chain : CryptoChain L K → List ℕ → List ℕ → Outcome (CryptoChain L K)
  append_chain c this_iv buf =
      if ltb avail_block_size (length buf) then err Errno.out_of_disk else (do
        fresh ← alloc_buf memory 1
        let pre_mac : List ℕ = last_mac c.block_macs
        encrypted ← aead.encrypt buf c.key this_iv pre_mac
        filled ← copy_from_slice fresh 0 (length buf) encrypted.0
        let footer : Footer = record {
          len = length buf;
          pre_mac = pre_mac;
          this_mac = encrypted.1;
          this_iv = this_iv;
        }
        block ← copy_from_slice filled avail_block_size (length filled) (fb.to_bytes footer)
        appended ← log.append c.block_log block
        end ← add_usize c.end 1
        ok (record c {
          block_log = appended.0;
          end = end;
          block_macs = c.block_macs ++ (encrypted.1 ∷ []);
        }))

  -- `CryptoChain::flush`
  pub flush_chain : CryptoChain L K → Outcome (CryptoChain L K)
  flush_chain c = log.flush c.block_log >>= λ l. ok (record c { block_log = l })

  -- A value, or nothing where there is an error.
  abbrev pub ok_or_none : {A : Type 0} → Outcome A → Outcome (Option A)
  ok_or_none (ok a) = ok (some a)
  ok_or_none (err e) = ok none
  ok_or_none panic = panic

  -- The payload of a block with its footer, if it is decrypted.
  pub open_block : K → List ℕ → Outcome (Option (Footer × List ℕ))
  open_block key block = slice block avail_block_size (length block) >>= λ tail.
      let footer : Footer = fb.from_bytes tail in
      if ltb avail_block_size footer.len
      then ok none
      else (slice block 0 footer.len >>= λ input.
          ok_or_none (aead.decrypt input key footer.this_iv footer.pre_mac footer.this_mac)
          >>= λ payload. ok (elim payload [ none ↦ none | some p ↦ some (footer, p) ]))

  -- `Recovery::next`: the recovery with one more block, and its payload
  pub next_block : Recovery L K → Outcome (Option (Recovery L K × List ℕ))
  unfolding open_block
  next_block r = ok_or_none (log.read r.block_log r.end 1) >>= λ block. elim block [
    | none ↦ ok none
    | some b ↦
        (open_block r.key b >>= λ opened. elim opened [
          | none ↦ ok none
          | some (footer, payload) ↦
              if follows (last? r.block_macs) footer.pre_mac
              then (add_usize r.end 1 >>= λ end. ok (
                  some (
                    record r { end = end; block_macs = r.block_macs ++ (footer.this_mac ∷ []) },
                    payload,
                  )))
              else ok none
        ])
  ]

  -- `while let Some(payload) = recover.next()`, on fuel: the recovery, and the payloads.
  pub recover_blocks : ℕ → Recovery L K → Outcome (Recovery L K × List (List ℕ))
  unfolding next_block
  recover_blocks zero r = ok (r, [])
  recover_blocks (suc fuel) r = next_block r >>= λ found. elim found [
    | none ↦ ok (r, [])
    | some (r', payload) ↦ (recover_blocks fuel r' >>= λ rest. ok (rest.0, payload ∷ rest.1))
  ]
