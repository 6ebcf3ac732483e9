-- ===== src/Cmd/Output.antt =====
-- cmd/goafp/main.go: the lines that the commands print.
use goafp.Base.{ℕ, suc, ◌%◌, ◌^◌, Bool, Option, none, some, List, [], ◌∷◌, ◌++◌, map, if◌then◌else◌}
use goafp.Base.Int.{ℤ, pos, negsuc}
use goafp.Base.Bytes.{Bytes}
use goafp.Base.Numerals.{numeral, decimal, pad_left, pad_right, pad_zeros}
use goafp.Base.Outcome.{ok}
use goafp.Afp.Link.{M, ◌>>◌, pure}
use goafp.Afp.Text.{codes}
use goafp.Afp.Entry.{UnixPrivs, DirEntry}
use goafp.Afp.ServerInfo.{ServerInfo}
use goafp.Afp.Volume.{VolumeInfo}

abbrev pub newline : Bytes
newline = 10 ∷ []

-- The parts of a text, one behind the other.
abbrev pub joined : List Bytes → Bytes
joined [] = []
joined (s ∷ parts) = s ++ joined parts

-- `strings.Join(items, ", ")`.
abbrev pub comma_join : List Bytes → Bytes
comma_join [] = []
comma_join (s ∷ []) = s
comma_join (s ∷ t ∷ items) = s ++ (codes ", " ++ comma_join (t ∷ items))

abbrev pub lines : List Bytes → Bytes
lines [] = []
lines (s ∷ more) = s ++ (newline ++ lines more)

abbrev pub usage : Bytes
usage = lines (
    codes "usage: goafp <command> [arguments]"
    ∷ []
    ∷ codes "Commands:"
    ∷ codes "  status  <host[:port]>                              query a server, no auth"
    ∷ codes "  volumes <afp://[user[:pass]@]host>                 list volumes on a server"
    ∷ codes "  ls      <afp://[user[:pass]@]host/volume[/path]>   list a directory"
    ∷ codes "  cat     <afp://[user[:pass]@]host/volume/path>     stream a file to stdout"
    ∷ codes "  get     <afp://[user[:pass]@]host/volume/path> [localfile]"
    ∷ codes "                                                     download a file"
    ∷ codes "  put     <localfile> <afp://[user[:pass]@]host/volume/path>"
    ∷ codes "                                                     upload a file"
    ∷ codes "  mkdir   <afp://[user[:pass]@]host/volume/path>     create a directory"
    ∷ codes "  rm      <afp://[user[:pass]@]host/volume/path>     delete a file or empty dir"
    ∷ codes "  mv      <afp://[user[:pass]@]host/volume/path> <newpath>"
    ∷ codes "                                                     rename within the volume"
    ∷ codes "  mount   <afp://[user[:pass]@]host/volume> [addr]   serve the volume over NFS"
    ∷ codes "                                                     (default addr 127.0.0.1:2049)"
    ∷ []
    ∷ codes "With no user in the URL, goafp connects as a guest."
    ∷ [])

-- The five lines of `runStatus`.
unfoldable pub status_text : ServerInfo → Bytes
status_text info = joined (
    codes "Server name:  "
    ∷ info.server_name
    ∷ newline
    ∷ codes "Machine type: "
    ∷ info.machine_type
    ∷ newline
    ∷ codes "AFP versions: "
    ∷ comma_join info.afp_versions
    ∷ newline
    ∷ codes "UAMs:         "
    ∷ comma_join info.uams
    ∷ newline
    ∷ codes "Flags:        0x"
    ∷ pad_zeros 4 (numeral 16 info.flags)
    ∷ newline
    ∷ [])

-- A line of `runVolumes`.
unfoldable pub volume_line : VolumeInfo → Bytes
volume_line v =
    v.name ++ ((if v.has_password then codes " (password protected)" else []) ++ newline)

-- The permissions `perms & 0o7777`, the user and the group.
abbrev pub perms_text : UnixPrivs → Bytes
perms_text p = joined (
    codes " "
    ∷ pad_zeros 4 (numeral 8 (p.permissions % 2 ^ 12))
    ∷ codes " "
    ∷ pad_left 5 (decimal p.uid)
    ∷ codes ":"
    ∷ pad_right 5 (decimal p.gid)
    ∷ [])

abbrev pub size_text : DirEntry → Bytes
size_text e = if e.is_dir then decimal e.offspring ++ codes " items" else decimal e.size

-- `show_time` is `Format` with the layout of the source, in the local zone.
abbrev pub time_text : (ℤ → Bytes) → Option ℤ → Bytes
time_text show_time none = []
time_text show_time (some t) = show_time t

unfoldable pub format_entry : (ℤ → Bytes) → DirEntry → Bytes
format_entry show_time e = joined (
    (if e.is_dir then codes "d" else codes "-")
    ∷ (if e.has_unix then perms_text e.unix_privs else [])
    ∷ codes " "
    ∷ pad_left 12 (size_text e)
    ∷ codes "  "
    ∷ time_text show_time e.mod_time
    ∷ codes "  "
    ∷ e.name
    ∷ [])

-- What `runGet` and `runPut` say of a file that is through.
-- `%d` of an int64.
abbrev pub signed_decimal : ℤ → Bytes
signed_decimal (pos n) = decimal n
signed_decimal (negsuc n) = b'-' ∷ decimal (suc n)

unfoldable pub wrote_text : Bytes → ℤ → Bytes
wrote_text name n =
    joined (codes "wrote " ∷ name ∷ codes " (" ∷ signed_decimal n ∷ codes " bytes)" ∷ newline ∷ [])

-- `printMountHelp`, by the address of the listener as text, its host and its port, and whether the
-- system is darwin; `quoted` is the `%q` of the volume's name.
unfoldable pub mount_help : Bool → Bytes → Bytes → Bytes → ℕ → Bytes
mount_help darwin quoted addr ip port = joined (
    codes "Serving AFP volume "
    ∷ quoted
    ∷ codes " over NFS on "
    ∷ addr
    ∷ newline
    ∷ newline
    ∷ codes "Mount it from another terminal (needs sudo):"
    ∷ newline
    ∷ (if darwin
        then codes "  sudo mount_nfs -o vers=3,tcp,port="
        else codes "  sudo mount -t nfs -o vers=3,tcp,port=")
    ∷ decimal port
    ∷ codes ",mountport="
    ∷ decimal port
    ∷ (if darwin then codes ",noowners,resvport \\" else codes ",nolock \\")
    ∷ newline
    ∷ codes "    "
    ∷ ip
    ∷ codes ":/ /path/to/mountpoint"
    ∷ newline
    ∷ newline
    ∷ codes "Press Ctrl-C to stop serving."
    ∷ newline
    ∷ [])

-- A print to standard output or standard error, whose errors the program drops.
abbrev pub say : {W : Type 0} → (Bytes → W → W) → Bytes → M W (Unit {0})
say print text w = (ok tt, print text w)

abbrev pub say_each : {W : Type 0} → (Bytes → W → W) → List Bytes → M W (Unit {0})
say_each print [] = pure tt
say_each print (s ∷ texts) = say print s >> say_each print texts

-- `none` is a listing that ran out of fuel.
abbrev pub print_entries :
    {W : Type 0} → (ℤ → Bytes) → (Bytes → W → W) → Option (List DirEntry) → M W (Option (Unit {0}))
print_entries show_time print none = pure none
print_entries show_time print (some es) =
    say_each print (map (λ e. format_entry show_time e ++ newline) es) >> pure (some tt)

-- The total of `ReadFrom`, below 2^63.
abbrev pub int64_total : Option ℕ → Option ℤ
int64_total none = none
int64_total (some n) = some (pos n)

abbrev pub say_wrote : {W : Type 0} → (Bytes → W → W) → Bytes → Option ℤ → M W (Unit {0})
say_wrote print name none = pure tt
say_wrote print name (some n) = say print (wrote_text name n)
