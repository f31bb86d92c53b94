-- ===== src/Main/Fatal.antt =====
-- `main` ends with what it has started, or ends the process.
use Prim.Native.String.{String}
use bas_relay_hub.Prelude.{ℕ, ◌≡◌, refl, Bytes, arith}
use bas_relay_hub.Errors.{Error, Result, ok, err, panic, ◌>>=◌}
use bas_relay_hub.Slices.{slice_from}
use bas_relay_hub.Eth.{Address, Client}
use bas_relay_hub.Hub.{RelayHub}
use bas_relay_hub.Config.{Viper, must, config_from_viper}
use bas_relay_hub.Node.{or_fatal}
use bas_relay_hub.Settings.{
  ViperOps, config_path_key, ext, config_path_of, new_viper, read_path, read_from_file,
}
use bas_relay_hub.Service.Startup.{start}
use bas_relay_hub.Server.Start.{Transport, start_server}
use bas_relay_hub.Main.{main}

pub or_fatal-eq-ok : {A : Type 0} (m : Result A) {a : A} → or_fatal m ≡ ok a → m ≡ ok a
unfolding or_fatal
or_fatal-eq-ok (ok x) h = h
or_fatal-eq-ok (err e) h = cc
or_fatal-eq-ok (panic p) h = cc

-- a call that ends well or ends the process
abbrev pub NoError : {A : Type 0} → Result A → Type 0
NoError m = (e : Error) → ¬ (m ≡ err e)

NoError-bind :
    {A B : Type 0} (m : Result A) (f : A → Result B)
    → NoError m
    → ((a : A) → NoError (f a))
    → NoError (m >>= f)
NoError-bind (ok a) f first rest e h = rest a e h
NoError-bind (err e') f first rest e h = absurd (first e' refl)
NoError-bind (panic p) f first rest e h = cc

or_fatal-NoError : {A : Type 0} (m : Result A) → NoError (or_fatal m)
unfolding or_fatal
or_fatal-NoError (ok a) e h = cc
or_fatal-NoError (err e') e h = cc
or_fatal-NoError (panic p) e h = cc

must-NoError : {A : Type 0} (m : Result A) → NoError (must m)
unfolding must
must-NoError (ok a) e h = cc
must-NoError (err e') e h = cc
must-NoError (panic p) e h = cc

config_from_viper-NoError : (viper : Viper) → NoError (config_from_viper viper)
unfolding config_from_viper
config_from_viper-NoError viper =
    NoError-bind (must (viper.hex_to_ecdsa (viper.get_string "relayer.private-key"))) _
      (must-NoError (viper.hex_to_ecdsa (viper.get_string "relayer.private-key"))) (λ key e h. cc)

slice_from-NoError : (k : ℕ) (b : Bytes) → NoError (slice_from k b)
unfolding slice_from
slice_from-NoError k b e h = ground arith

-- the file is read where it is there
stat-NoError :
    {V : Type 0} (stat : Result (Unit {0})) (found : Result V) (v : V)
    → ((e : Error) → ¬ (found ≡ err e))
    → NoError (elim stat [ ok _ ↦ found | err e ↦ ok v | panic p ↦ panic p ])
stat-NoError (ok _) found v first e h = first e h
stat-NoError (err e') found v first e h = cc
stat-NoError (panic p) found v first e h = cc

new_viper-NoError : {V : Type 0} (viper : ViperOps V) → NoError (new_viper viper)
unfolding new_viper read_from_file read_path
new_viper-NoError {V} viper =
    let v : V = viper.set_env_key_replacer (viper.automatic_env viper.new) in
    let path = config_path_of (viper.get_string config_path_key v) in
    stat-NoError (viper.stat path) (read_path viper path v) v (
      NoError-bind (slice_from 1 (ext path)) _ (slice_from-NoError 1 (ext path))
        (λ ext'. or_fatal-NoError _))

module _ {V Listener Conn : Type 0} (viper : ViperOps V) (settings_of : V → Viper)
    (hex_to_address : String → Address) (new_relay_hub : Address → Client → RelayHub)
    (dial : String → Result Client) (transport : Transport Listener Conn) where
  pub main-NoError : NoError (main viper settings_of hex_to_address new_relay_hub dial transport)
  unfolding main
  main-NoError = NoError-bind (new_viper viper) _ (new_viper-NoError viper) (λ v.
      NoError-bind (config_from_viper (settings_of v)) _ (config_from_viper-NoError (settings_of v))
        (λ config.
          NoError-bind (or_fatal (start hex_to_address new_relay_hub dial config)) _
            (or_fatal-NoError (start hex_to_address new_relay_hub dial config))
            (λ streams.
              NoError-bind (or_fatal (start_server transport config)) _
                (or_fatal-NoError (start_server transport config)) (λ server e h. cc))))
