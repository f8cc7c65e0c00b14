-- ===== src/Digest/Tiger/Sbox2.antt =====
-- src/crypto/digest/tiger.cpp: entries 256 to 511 of `sboxes`, which the macro SBOX2 points at.
use samurai.Prelude.{ℕ, List, [], ◌∷◌}

abbrev pub sbox2_table : List ℕ
sbox2_table =
    0xE6A6BE5A05A12138 ∷ 0xB5A122A5B4F87C98 ∷ 0x563C6089140B6990 ∷ 0x4C46CB2E391F5DD5
    ∷ 0xD932ADDBC9B79434 ∷ 0x08EA70E42015AFF5 ∷ 0xD765A6673E478CF1 ∷ 0xC4FB757EAB278D99
    ∷ 0xDF11C6862D6E0692 ∷ 0xDDEB84F10D7F3B16 ∷ 0x6F2EF604A665EA04 ∷ 0x4A8E0F0FF0E0DFB3
    ∷ 0xA5EDEEF83DBCBA51 ∷ 0xFC4F0A2A0EA4371E ∷ 0xE83E1DA85CB38429 ∷ 0xDC8FF882BA1B1CE2
    ∷ 0xCD45505E8353E80D ∷ 0x18D19A00D4DB0717 ∷ 0x34A0CFEDA5F38101 ∷ 0x0BE77E518887CAF2
    ∷ 0x1E341438B3C45136 ∷ 0xE05797F49089CCF9 ∷ 0xFFD23F9DF2591D14 ∷ 0x543DDA228595C5CD
    ∷ 0x661F81FD99052A33 ∷ 0x8736E641DB0F7B76 ∷ 0x15227725418E5307 ∷ 0xE25F7F46162EB2FA
    ∷ 0x48A8B2126C13D9FE ∷ 0xAFDC541792E76EEA ∷ 0x03D912BFC6D1898F ∷ 0x31B1AAFA1B83F51B
    ∷ 0xF1AC2796E42AB7D9 ∷ 0x40A3A7D7FCD2EBAC ∷ 0x1056136D0AFBBCC5 ∷ 0x7889E1DD9A6D0C85
    ∷ 0xD33525782A7974AA ∷ 0xA7E25D09078AC09B ∷ 0xBD4138B3EAC6EDD0 ∷ 0x920ABFBE71EB9E70
    ∷ 0xA2A5D0F54FC2625C ∷ 0xC054E36B0B1290A3 ∷ 0xF6DD59FF62FE932B ∷ 0x3537354511A8AC7D
    ∷ 0xCA845E9172FADCD4 ∷ 0x84F82B60329D20DC ∷ 0x79C62CE1CD672F18 ∷ 0x8B09A2ADD124642C
    ∷ 0xD0C1E96A19D9E726 ∷ 0x5A786A9B4BA9500C ∷ 0x0E020336634C43F3 ∷ 0xC17B474AEB66D822
    ∷ 0x6A731AE3EC9BAAC2 ∷ 0x8226667AE0840258 ∷ 0x67D4567691CAECA5 ∷ 0x1D94155C4875ADB5
    ∷ 0x6D00FD985B813FDF ∷ 0x51286EFCB774CD06 ∷ 0x5E8834471FA744AF ∷ 0xF72CA0AEE761AE2E
    ∷ 0xBE40E4CDAEE8E09A ∷ 0xE9970BBB5118F665 ∷ 0x726E4BEB33DF1964 ∷ 0x703B000729199762
    ∷ 0x4631D816F5EF30A7 ∷ 0xB880B5B51504A6BE ∷ 0x641793C37ED84B6C ∷ 0x7B21ED77F6E97D96
    ∷ 0x776306312EF96B73 ∷ 0xAE528948E86FF3F4 ∷ 0x53DBD7F286A3F8F8 ∷ 0x16CADCE74CFC1063
    ∷ 0x005C19BDFA52C6DD ∷ 0x68868F5D64D46AD3 ∷ 0x3A9D512CCF1E186A ∷ 0x367E62C2385660AE
    ∷ 0xE359E7EA77DCB1D7 ∷ 0x526C0773749ABE6E ∷ 0x735AE5F9D09F734B ∷ 0x493FC7CC8A558BA8
    ∷ 0xB0B9C1533041AB45 ∷ 0x321958BA470A59BD ∷ 0x852DB00B5F46C393 ∷ 0x91209B2BD336B0E5
    ∷ 0x6E604F7D659EF19F ∷ 0xB99A8AE2782CCB24 ∷ 0xCCF52AB6C814C4C7 ∷ 0x4727D9AFBE11727B
    ∷ 0x7E950D0C0121B34D ∷ 0x756F435670AD471F ∷ 0xF5ADD442615A6849 ∷ 0x4E87E09980B9957A
    ∷ 0x2ACFA1DF50AEE355 ∷ 0xD898263AFD2FD556 ∷ 0xC8F4924DD80C8FD6 ∷ 0xCF99CA3D754A173A
    ∷ 0xFE477BACAF91BF3C ∷ 0xED5371F6D690C12D ∷ 0x831A5C285E687094 ∷ 0xC5D3C90A3708A0A4
    ∷ 0x0F7F903717D06580 ∷ 0x19F9BB13B8FDF27F ∷ 0xB1BD6F1B4D502843 ∷ 0x1C761BA38FFF4012
    ∷ 0x0D1530C4E2E21F3B ∷ 0x8943CE69A7372C8A ∷ 0xE5184E11FEB5CE66 ∷ 0x618BDB80BD736621
    ∷ 0x7D29BAD68B574D0B ∷ 0x81BB613E25E6FE5B ∷ 0x071C9C10BC07913F ∷ 0xC7BEEB7909AC2D97
    ∷ 0xC3E58D353BC5D757 ∷ 0xEB017892F38F61E8 ∷ 0xD4EFFB9C9B1CC21A ∷ 0x99727D26F494F7AB
    ∷ 0xA3E063A2956B3E03 ∷ 0x9D4A8B9A4AA09C30 ∷ 0x3F6AB7D500090FB4 ∷ 0x9CC0F2A057268AC0
    ∷ 0x3DEE9D2DEDBF42D1 ∷ 0x330F49C87960A972 ∷ 0xC6B2720287421B41 ∷ 0x0AC59EC07C00369C
    ∷ 0xEF4EAC49CB353425 ∷ 0xF450244EEF0129D8 ∷ 0x8ACC46E5CAF4DEB6 ∷ 0x2FFEAB63989263F7
    ∷ 0x8F7CB9FE5D7A4578 ∷ 0x5BD8F7644E634635 ∷ 0x427A7315BF2DC900 ∷ 0x17D0C4AA2125261C
    ∷ 0x3992486C93518E50 ∷ 0xB4CBFEE0A2D7D4C3 ∷ 0x7C75D6202C5DDD8D ∷ 0xDBC295D8E35B6C61
    ∷ 0x60B369D302032B19 ∷ 0xCE42685FDCE44132 ∷ 0x06F3DDB9DDF65610 ∷ 0x8EA4D21DB5E148F0
    ∷ 0x20B0FCE62FCD496F ∷ 0x2C1B912358B0EE31 ∷ 0xB28317B818F5A308 ∷ 0xA89C1E189CA6D2CF
    ∷ 0x0C6B18576AAADBC8 ∷ 0xB65DEAA91299FAE3 ∷ 0xFB2B794B7F1027E7 ∷ 0x04E4317F443B5BEB
    ∷ 0x4B852D325939D0A6 ∷ 0xD5AE6BEEFB207FFC ∷ 0x309682B281C7D374 ∷ 0xBAE309A194C3B475
    ∷ 0x8CC3F97B13B49F05 ∷ 0x98A9422FF8293967 ∷ 0x244B16B01076FF7C ∷ 0xF8BF571C663D67EE
    ∷ 0x1F0D6758EEE30DA1 ∷ 0xC9B611D97ADEB9B7 ∷ 0xB7AFD5887B6C57A2 ∷ 0x6290AE846B984FE1
    ∷ 0x94DF4CDEACC1A5FD ∷ 0x058A5BD1C5483AFF ∷ 0x63166CC142BA3C37 ∷ 0x8DB8526EB2F76F40
    ∷ 0xE10880036F0D6D4E ∷ 0x9E0523C9971D311D ∷ 0x45EC2824CC7CD691 ∷ 0x575B8359E62382C9
    ∷ 0xFA9E400DC4889995 ∷ 0xD1823ECB45721568 ∷ 0xDAFD983B8206082F ∷ 0xAA7D29082386A8CB
    ∷ 0x269FCD4403B87588 ∷ 0x1B91F5F728BDD1E0 ∷ 0xE4669F39040201F6 ∷ 0x7A1D7C218CF04ADE
    ∷ 0x65623C29D79CE5CE ∷ 0x2368449096C00BB1 ∷ 0xAB9BF1879DA503BA ∷ 0xBC23ECB1A458058E
    ∷ 0x9A58DF01BB401ECC ∷ 0xA070E868A85F143D ∷ 0x4FF188307DF2239E ∷ 0x14D565B41A641183
    ∷ 0xEE13337452701602 ∷ 0x950E3DCF3F285E09 ∷ 0x59930254B9C80953 ∷ 0x3BF299408930DA6D
    ∷ 0xA955943F53691387 ∷ 0xA15EDECAA9CB8784 ∷ 0x29142127352BE9A0 ∷ 0x76F0371FFF4E7AFB
    ∷ 0x0239F450274F2228 ∷ 0xBB073AF01D5E868B ∷ 0xBFC80571C10E96C1 ∷ 0xD267088568222E23
    ∷ 0x9671A3D48E80B5B0 ∷ 0x55B5D38AE193BB81 ∷ 0x693AE2D0A18B04B8 ∷ 0x5C48B4ECADD5335F
    ∷ 0xFD743B194916A1CA ∷ 0x2577018134BE98C4 ∷ 0xE77987E83C54A4AD ∷ 0x28E11014DA33E1B9
    ∷ 0x270CC59E226AA213 ∷ 0x71495F756D1A5F60 ∷ 0x9BE853FB60AFEF77 ∷ 0xADC786A7F7443DBF
    ∷ 0x0904456173B29A82 ∷ 0x58BC7A66C232BD5E ∷ 0xF306558C673AC8B2 ∷ 0x41F639C6B6C9772A
    ∷ 0x216DEFE99FDA35DA ∷ 0x11640CC71C7BE615 ∷ 0x93C43694565C5527 ∷ 0xEA038E6246777839
    ∷ 0xF9ABF3CE5A3E2469 ∷ 0x741E768D0FD312D2 ∷ 0x0144B883CED652C6 ∷ 0xC20B5A5BA33F8552
    ∷ 0x1AE69633C3435A9D ∷ 0x97A28CA4088CFDEC ∷ 0x8824A43C1E96F420 ∷ 0x37612FA66EEEA746
    ∷ 0x6B4CB165F9CF0E5A ∷ 0x43AA1C06A0ABFB4A ∷ 0x7F4DC26FF162796B ∷ 0x6CBACC8E54ED9B0F
    ∷ 0xA6B7FFEFD2BB253E ∷ 0x2E25BC95B0A29D4F ∷ 0x86D6A58BDEF1388C ∷ 0xDED74AC576B6F054
    ∷ 0x8030BDBC2B45805D ∷ 0x3C81AF70E94D9289 ∷ 0x3EFF6DDA9E3100DB ∷ 0xB38DC39FDFCC8847
    ∷ 0x123885528D17B87E ∷ 0xF2DA0ED240B1B642 ∷ 0x44CEFADCD54BF9A9 ∷ 0x1312200E433C7EE6
    ∷ 0x9FFCC84F3A78C748 ∷ 0xF0CD1F72248576BB ∷ 0xEC6974053638CFE4 ∷ 0x2BA7B67C0CEC4E4C
    ∷ 0xAC2F4DF3E5CE32ED ∷ 0xCB33D14326EA4C11 ∷ 0xA4E9044CC77E58BC ∷ 0x5F513293D934FCEF
    ∷ 0x5DC9645506E55444 ∷ 0x50DE418F317DE40A ∷ 0x388CB31A69DDE259 ∷ 0x2DB4A83455820A86
    ∷ 0x9010A91E84711AE9 ∷ 0x4DF7F0B7B1498371 ∷ 0xD62A2EABC0977179 ∷ 0x22FAC097AA8D5C0E ∷ []
