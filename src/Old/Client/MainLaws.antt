-- ===== src/Old/Client/MainLaws.antt =====
-- What `main` of the older clients enters its loop with.
use s_vpn.Common.{ℕ, ◌≡◌, refl, ◌∙◌, ap, arith, List, length, Option, none, some}
use s_vpn.Common.Int.{ℤ, negsuc}
use s_vpn.Md5.{Md5Ctx, md5_fast}
use s_vpn.Md5.Digest.{md5_fast-eq-reference}
use s_vpn.Md5.Size.{length-md5_reference}
use s_vpn.Server.Loop.{codes}
use s_vpn.Old.TableLaws.{HasSpace}
use s_vpn.Old.Client.{SvpnClient}
use s_vpn.Old.Client.Start.{Tun, linux_tun_create, osx_tun_create}
use s_vpn.Old.Client.StartLaws.{IsReady, IsReadyIf, zero_table, svpn_init-IsReadyIf}
use s_vpn.Old.Client.Main.{
  Main, exits, runs, linux_commands, osx_commands, main_started, main_with, linux_main, osx_main,
}

-- It ends with -1, or it runs these commands with a client that is ready.
abbrev pub IsGood : List (List ℕ) → Main → Type 0
IsGood commands (exits status) = status ≡ negsuc 0
IsGood commands (runs lines psc) = (lines ≡ commands) × IsReady psc

main_started-IsGood :
    (commands : List (List ℕ)) (o : Option SvpnClient)
    → IsReadyIf o
    → IsGood commands (main_started commands o)
unfolding main_started
main_started-IsGood commands none ready = refl
main_started-IsGood commands (some psc) ready = (refl, ready)

module _ (sockaddr : List ℕ → ℕ → List ℕ) (stack : Md5Ctx) (md : List ℕ)
    (space : HasSpace stack md zero_table) where
  digest_size : length (md5_fast stack (codes "a") 1) ≡ 16
  digest_size =
      ap (λ d. length d)
        (md5_fast-eq-reference stack (codes "a") 1 space.context (omega arith) (omega arith))
      ∙ length-md5_reference _

  main_with-IsGood :
      (socket_fd bind_result : ℤ) (t : Tun) (commands : List (List ℕ))
      → IsGood commands (main_with sockaddr stack md socket_fd bind_result t commands)
  unfolding main_with
  main_with-IsGood socket_fd bind_result t commands = main_started-IsGood commands _ (
      svpn_init-IsReadyIf sockaddr stack md socket_fd bind_result t (codes "36.54.3.49") 33333
        (md5_fast stack (codes "a") 1) 0 space digest_size)

  -- Whatever the system calls return, `main` of the older Linux client and of the OS X client ends
  -- with -1, or runs the commands of its platform with a client that has inverse tables, a socket
  -- and a tunnel whose descriptors are not negative, and no thread of its own (a stack with its
  -- arrays).
  pub mains-IsGood :
      (socket_fd bind_result fd err info connected : ℤ)
      → IsGood linux_commands (linux_main sockaddr stack md socket_fd bind_result fd err)
        × IsGood osx_commands (osx_main sockaddr stack md socket_fd bind_result fd info connected)
  unfolding linux_main osx_main
  mains-IsGood socket_fd bind_result fd err info connected = (
    main_with-IsGood socket_fd bind_result (linux_tun_create fd err) linux_commands,
    main_with-IsGood socket_fd bind_result (osx_tun_create fd info connected) osx_commands,
  )
