-- ===== src/Sink/Rolling/Files.antt =====
-- What a change of the directory does to the contents of its files.
use obs.Prelude.{
  ◌≡◌, refl, true, false, List, [], ◌∷◌, ◌++◌, append-nil, Text, Bytes, text_eq, text_eq_refl,
  text_eq→eq, if◌then◌else◌, arith,
}
use obs.Sink.Rolling.{File, has_file, open_file, content, without, append_to}

pub content-last :
    (path : Text) (fs : List File) (f : File)
    → content path (fs ++ (f ∷ [])) ≡ (
        if has_file path fs then content path fs else if text_eq f.path path then f.content else [])
unfolding content has_file
content-last path [] f = refl
content-last path (g ∷ fs) f = ground (arith, content-last path fs f)

pub content-missing :
    (path : Text) (fs : List File) → has_file path fs ≡ false → content path fs ≡ []
unfolding content has_file
content-missing path [] h = refl
content-missing path (g ∷ fs) h = ground (arith, h, content-missing path fs)

pub content-open_file :
    (p path : Text) (fs : List File) → content p (open_file path fs) ≡ content p fs
unfolding open_file
content-open_file p path fs =
    ground (arith, content-last p fs (record { path = path; content = [] }), content-missing p fs)

pub has_file-last :
    (path : Text) (bs : Bytes) (fs : List File)
    → has_file path (fs ++ (record { path = path; content = bs } ∷ [])) ≡ true
unfolding has_file
has_file-last path bs [] = ground (arith, text_eq_refl path)
has_file-last path bs (f ∷ fs) = ground (arith, has_file-last path bs fs)

pub has_file-open_file : (path : Text) (fs : List File) → has_file path (open_file path fs) ≡ true
unfolding open_file
has_file-open_file path fs = ground (arith, has_file-last path [] fs)

pub content-without :
    (p path : Text) (fs : List File)
    → text_eq path p ≡ false
    → content p (without path fs) ≡ content p fs
unfolding content without
content-without p path [] h = refl
content-without p path (f ∷ fs) h =
    ground (arith, h, text_eq→eq f.path path, content-without p path fs h)

pub has_file-without :
    (p path : Text) (fs : List File)
    → has_file p (without path fs) ≡ (if text_eq path p then false else has_file p fs)
unfolding has_file without
has_file-without p path [] = ground arith
has_file-without p path (f ∷ fs) =
    ground (arith, text_eq→eq f.path path, text_eq→eq path p, has_file-without p path fs)

pub content-append_to :
    (p path : Text) (bs : Bytes) (fs : List File)
    → has_file path fs ≡ true
    → content p (append_to path bs fs)
      ≡ (if text_eq path p then content p fs ++ bs else content p fs)
unfolding append_to
content-append_to p path [] fs h = ground (arith, append-nil (content p fs))
content-append_to p path (b ∷ bs) fs h =
    let last =
      content-last p (without path fs)
        (record { path = path; content = content path fs ++ (b ∷ bs) }) in
    ground (
      arith,
      h,
      last,
      has_file-without p path fs,
      content-without p path fs,
      content-missing p fs,
      text_eq→eq path p,
    )

pub has_file-append_to :
    (path : Text) (bs : Bytes) (fs : List File)
    → has_file path fs ≡ true
    → has_file path (append_to path bs fs) ≡ true
unfolding append_to
has_file-append_to path [] fs h = h
has_file-append_to path (b ∷ bs) fs h = rw (append_to, h) (has_file-last path _ (without path fs))
